-- ===== src/Rpc/Provider/Registry.antt =====
-- `NotifyService`: what the provider finds under a service's and a method's name.
use mprpc_main.Common.{
  ℕ, ◌+◌, ◌≡◌, refl, ap, Option, none, some, List, [], ◌∷◌, Bytes, Bool, true, false, bytes_eq,
  bytes_key, if◌then◌else◌, find, insert, find-insert, arith, Option-cases, Bool-cases, inl, inr,
}
use mprpc_main.Rpc.Provider.{Service, ServiceInfo, ServiceMap, insert_methods, notify_service}

-- The index of the first method of that name, counted from `i`.
unfoldable pub first_index : ℕ → Bytes → List Bytes → Option ℕ
first_index i name [] = none
first_index i name (m ∷ ms) = if bytes_eq m name then some i else first_index (i + 1) name ms

abbrev pub or_else : Option ℕ → Option ℕ → Option ℕ
or_else (some a) _ = some a
or_else none o = o

-- The loop over the methods finds a name that was there before, or else its first method.
insert_methods-find :
    (i : ℕ) (names : List Bytes) (m : List (Bytes × ℕ)) (name : Bytes)
    → find name (insert_methods i names m) ≡ or_else (find name m) (first_index i name names)
unfolding insert_methods first_index
insert_methods-find i [] m name = ground (arith)
insert_methods-find i (n ∷ names) m name =
    ground (arith, insert_methods-find (i + 1) names (insert n i m) name, find-insert n name i m)

abbrev pub with_index : Service → Option ℕ → Option (Service × ℕ)
with_index s none = none
with_index s (some i) = some (s, i)

abbrev pub found_method : Bytes → Option ServiceInfo → Option (Service × ℕ)
found_method name none = none
found_method name (some info) = with_index info.service (find name info.method_map)

-- What `OnMessage` finds under the names of a service and a method.
unfoldable pub lookup_method : ServiceMap → Bytes → Bytes → Option (Service × ℕ)
lookup_method services service_name method_name =
    found_method method_name (find service_name services)

abbrev pub is_some {ℓ} : {A : Type ℓ} → Option A → Bool
is_some none = false
is_some (some a) = true

find-nil : (name : Bytes) (o : Option ℕ) → or_else (find {V = ℕ} name []) o ≡ o
unfolding find
find-nil name o = refl

-- After `NotifyService` of `s`: a service name that was registered before is found as before,
-- whatever `s` is called; otherwise the name of `s` finds `s`, with the index of its first method
-- of the name sought, and no other name finds anything.
pub lookup_method-notify_service :
    (s : Service) (services : ServiceMap) (service_name method_name : Bytes)
    → lookup_method (notify_service s services) service_name method_name ≡ (
        if is_some (find service_name services)
        then lookup_method services service_name method_name
        else if bytes_eq s.name service_name
        then with_index s (first_index 0 method_name s.method_names)
        else none)
unfolding lookup_method notify_service
lookup_method-notify_service s services service_name method_name =
    rw (find-insert s.name service_name info services)
      (elim (Option-cases (find service_name services)) [
        | inl e ↦ rw e (elim (Bool-cases (bytes_eq s.name service_name)) [
          | inl t ↦
              rw (t, insert_methods-find 0 s.method_names [] method_name)
                (ap (with_index s) (find-nil method_name _))
          | inr t ↦ rw t
        ])
        | inr (old, e) ↦ rw e
      ])
  where
    info : ServiceInfo
    info = record { service = s; method_map = insert_methods 0 s.method_names [] }
