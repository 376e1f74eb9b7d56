-- ===== src/Chat/Service/Close.antt =====
-- `clientCloseException`: which entries of `_userConnMap` a lost connection leaves.
use mprpc_main.Common.{
  ℕ, ◌+◌, ◌-◌, ◌≡◌, ◌≢◌, refl, sym, ap, subst, ◌∙◌, true, false, ◌==◌, none, List, [], ◌∷◌, Bytes,
  codes, if◌then◌else◌, ℤ, pos, negsuc, int_eq, int_eq_iff, int_ne, int_key, find, erase, arith,
  ◌⊎◌, inl, inr, Bool-cases,
}
use mprpc_main.Common.Strings.Decimal.{IsInt}
use mprpc_main.Chat.Db.{ok, MySql}
use mprpc_main.Chat.Models.{User}
use mprpc_main.Chat.Models.UserModel.Bounds.{
  GivesInts, query-Returns, query-IsInt, update_state-Returns,
}
use mprpc_main.Chat.Redis
use mprpc_main.Chat.Json.{JsonLibrary}
use mprpc_main.Chat.Service.{
  ChatService, user_of_conn, log_off, client_close_exception, user_channel,
}

-- The number of users that are reached by a connection.
pub occurs : ℕ → List (ℤ × ℕ) → ℕ
occurs conn [] = 0
occurs conn ((id, c) ∷ m) = (if c == conn then 1 else 0) + occurs conn m

-- The keys are different, they are values of `int`, and none is -1.
abbrev pub ValidIds : List (ℤ × ℕ) → Type 0
ValidIds [] = Unit {0}
ValidIds ((id, c) ∷ m) = (find id m ≡ none) × IsInt id × (id ≢ negsuc 0) × ValidIds m

later_valid : (id : ℤ) (c : ℕ) (m : List (ℤ × ℕ)) → ValidIds ((id, c) ∷ m) → ValidIds m
later_valid id c m v = let (absent, int, valid, rest) = v in rest

absent_later : (id : ℤ) (c : ℕ) (m : List (ℤ × ℕ)) → ValidIds ((id, c) ∷ m) → find id m ≡ none
absent_later id c m v = let (absent, int, valid, rest) = v in absent

erase_absent : (id : ℤ) (m : List (ℤ × ℕ)) → find id m ≡ none → erase id m ≡ m
unfolding find erase
erase_absent id [] h = refl
erase_absent id ((j, c) ∷ m) h = ground (arith, erase_absent id m)

find_first : (id : ℤ) (c : ℕ) (m : List (ℤ × ℕ)) → find id ((id, c) ∷ m) ≢ none
unfolding find
find_first id c m = rw ((int_eq_iff id id).1 refl) (λ h. cc)

find_later : (id k : ℤ) (c : ℕ) (m : List (ℤ × ℕ)) → find k m ≢ none → find k ((id, c) ∷ m) ≢ none
unfolding find
find_later id k c m h = elim (Bool-cases (int_eq id k)) [ inl e ↦ rw e (λ g. cc) | inr e ↦ rw e h ]

erase_first : (id : ℤ) (c : ℕ) (m : List (ℤ × ℕ)) → find id m ≡ none → erase id ((id, c) ∷ m) ≡ m
unfolding erase
erase_first id c m h = rw ((int_eq_iff id id).1 refl) (erase_absent id m h)

occurs_later :
    (conn c : ℕ) (id k : ℤ) (m : List (ℤ × ℕ))
    → (c == conn) ≡ false
    → int_eq id k ≡ false
    → occurs conn (erase k ((id, c) ∷ m)) ≡ occurs conn (erase k m)
unfolding occurs erase
occurs_later conn c id k m t e = rw (e, t) (omega arith)

module _ (mysql : MySql) (atoi : Bytes → ℤ) (lib : JsonLibrary) where
  abbrev user_of : ℕ → List (ℤ × ℕ) → ℤ
  user_of = user_of_conn mysql atoi lib

  user_of-here :
      (conn c : ℕ) (id : ℤ) (m : List (ℤ × ℕ))
      → (c == conn) ≡ true
      → user_of conn ((id, c) ∷ m) ≡ id
  unfolding user_of_conn
  user_of-here conn c id m t = rw t refl

  user_of-later :
      (conn c : ℕ) (id : ℤ) (m : List (ℤ × ℕ))
      → (c == conn) ≡ false
      → user_of conn ((id, c) ∷ m) ≡ user_of conn m
  unfolding user_of_conn
  user_of-later conn c id m t = rw t refl

  abbrev IsUser : List (ℤ × ℕ) → ℤ → Type 0
  IsUser m k = (k ≢ negsuc 0) × (find k m ≢ none) × IsInt k

  -- The loop finds an entry, or no entry is there.
  found :
      (conn : ℕ) (m : List (ℤ × ℕ))
      → ValidIds m
      → ((user_of conn m ≡ negsuc 0) × (occurs conn m ≡ 0)) ⊎ IsUser m (user_of conn m)
  found conn [] v = inl (unfold user_of_conn in refl, unfold occurs in refl)
  found conn ((id, c) ∷ m) v = elim (Bool-cases (c == conn)) [
    | inl t ↦
        let (absent, int, valid, rest) = v in
        inr (
          subst (IsUser ((id, c) ∷ m)) (sym (user_of-here conn c id m t))
            (valid, find_first id c m, int))
    | inr t ↦
        let e = user_of-later conn c id m t in
        elim (found conn m (later_valid id c m v)) [
          | inl (a, b) ↦ inl (e ∙ a, unfold occurs in rw t (omega (arith, b)))
          | inr (a, b, i) ↦
              inr
                (subst (IsUser ((id, c) ∷ m)) (sym e) (a, find_later id (user_of conn m) c m b, i))
        ]
  ]

  occurs-erase :
      (conn : ℕ) (m : List (ℤ × ℕ))
      → ValidIds m
      → occurs conn (erase (user_of conn m) m) ≡ occurs conn m - 1
  occurs-erase conn [] v = unfold occurs erase in refl
  occurs-erase conn ((id, c) ∷ m) v = elim (Bool-cases (c == conn)) [
    | inl t ↦
        ap (λ k. occurs conn (erase k ((id, c) ∷ m))) (user_of-here conn c id m t)
        ∙ ap (occurs conn) (erase_first id c m (absent_later id c m v))
        ∙ (unfold occurs in rw t (omega arith))
    | inr t ↦
        ap (λ k. occurs conn (erase k ((id, c) ∷ m))) (user_of-later conn c id m t)
        ∙ occurs_later conn c id (user_of conn m) m t (other (found conn m (later_valid id c m v)))
        ∙ occurs-erase conn m (later_valid id c m v)
        ∙ (unfold occurs in rw t (omega arith))
  ]
    where
      other :
          ((user_of conn m ≡ negsuc 0) × (occurs conn m ≡ 0)) ⊎ IsUser m (user_of conn m)
          → int_eq id (user_of conn m) ≡ false
      other (inl (a, b)) =
          let (absent, int, valid, rest) = v in int_ne id (user_of conn m) (λ e. valid (e ∙ a))
      other (inr (a, b, i)) =
          int_ne id (user_of conn m)
            (λ e. b (subst (λ k. find k m ≡ none) e (absent_later id c m v)))

  log_off-Returns :
      (user : User) (id : ℤ) (w : ChatService mysql)
      → IsInt user.id
      → (w' : ChatService mysql) × (log_off mysql atoi lib user id w ≡ ok w')
        × (w'.user_conn_map ≡ w.user_conn_map)
  unfolding log_off
  log_off-Returns user id w h = elim (Bool-cases (int_eq user.id (pos 0))) [
    | inl none_there ↦ rw none_there (w, refl, refl)
    | inr there ↦
        let r =
          update_state-Returns mysql atoi (record user { state = codes "offline" }) w.server h
            refl in
        rw (there, r.1)
          (
            record w { server = r.0.1; redis = Redis.unsubscribe (user_channel id) w.redis },
            refl,
            refl,
          )
  ]

  -- `clientCloseException`, where `atoi` gives values of `int` and the keys of `_userConnMap` are
  -- different values of `int` other than -1: it returns, and there is one user less that the lost
  -- connection reaches, if there was one. So a connection under which two users have logged in
  -- stays in the map.
  pub client_close_exception-occurs :
      (conn : ℕ) (w : ChatService mysql)
      → GivesInts atoi
      → ValidIds w.user_conn_map
      → (w' : ChatService mysql) × (client_close_exception mysql atoi lib conn w ≡ ok w')
        × (occurs conn w'.user_conn_map ≡ occurs conn w.user_conn_map - 1)
  unfolding client_close_exception
  client_close_exception-occurs conn w g v = elim (found conn w.user_conn_map v) [
    | inl (a, b) ↦ rw ((int_eq_iff _ _).1 a) (w, refl, omega (arith, b))
    | inr (a, b, h) ↦
        let id = user_of conn w.user_conn_map in
        let q = query-Returns mysql atoi id w.server h in
        let r =
          log_off-Returns q.0.0 id
            (record w { user_conn_map = erase id w.user_conn_map; server = q.0.1 })
            (query-IsInt mysql atoi id w.server h g) in
        rw (int_ne id (negsuc 0) a, q.1)
          (r.0, r.1, ap (occurs conn) r.2 ∙ occurs-erase conn w.user_conn_map v)
  ]
