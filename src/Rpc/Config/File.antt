-- ===== src/Rpc/Config/File.antt =====
-- A whole configuration file, as `LoadConfigFile` of mprpc-main/src/mprpcconfig.cc reads it.
use mprpc_main.Common.{
  ℕ, zero, suc, ◌≡◌, refl, sym, ap, ◌∙◌, Option, none, some, List, [], ◌∷◌, ◌++◌, Bytes, Lacks,
  lines_from, find, insert, find-insert, bytes_key, bytes_eq, if◌then◌else◌, append-nil,
  append_assoc, ne→==, arith,
}
use mprpc_main.Common.Strings.Cut.{append-Lacks}
use mprpc_main.Rpc.Config.{ConfigMap, load, or_empty, load_lines, load_config_file}
use mprpc_main.Rpc.Config.Lines.{spaces, Tight, NoComment, entry_line, load_line-entry, trim-padded}

-- A line `key = value` with its spaces: before and behind the key, and the value.
pub record Entry : Type 0 where
  pub key : Bytes
  pub value : Bytes
  pub before_key : ℕ
  pub behind_key : ℕ
  pub before_value : ℕ
  pub behind_value : ℕ

abbrev line : Entry → Bytes
line e =
    entry_line e.before_key e.key e.behind_key
      (spaces e.before_value ++ (e.value ++ spaces e.behind_value))

-- The text of a file: one line for each entry.
abbrev pub print : List Entry → Bytes
print [] = []
print (e ∷ es) = line e ++ (10 ∷ print es)

-- The key and the value neither begin nor end with a space and are not empty; they have no end of a
-- line, the key has no `=`, and does not begin with `#`.
pub record IsEntry (e : Entry) : Type 0 where
  pub key_tight : Tight e.key
  pub key_plain : NoComment e.key
  pub key_unequal : Lacks b'=' e.key
  pub key_line : Lacks 10 e.key
  pub value_tight : Tight e.value
  pub value_line : Lacks 10 e.value

abbrev pub AllEntries : List Entry → Type 0
AllEntries [] = Unit {0}
AllEntries (e ∷ es) = IsEntry e × AllEntries es

-- The value of the first entry with that key.
unfoldable pub first_value : Bytes → List Entry → Option Bytes
first_value key [] = none
first_value key (e ∷ es) = if bytes_eq e.key key then some e.value else first_value key es

lines_from-line :
    (acc l rest : Bytes)
    → Lacks 10 l
    → lines_from acc (l ++ (10 ∷ rest)) ≡ (acc ++ l) ∷ lines_from [] rest
unfolding lines_from
lines_from-line acc [] rest h = ap (λ t. t ∷ lines_from [] rest) (sym (append-nil acc))
lines_from-line acc (c ∷ l) rest h =
    ap
      (λ b.
        if b
        then acc ∷ lines_from [] (l ++ (10 ∷ rest))
        else lines_from (acc ++ (c ∷ [])) (l ++ (10 ∷ rest)))
      (ne→== c 10 h.0)
    ∙ lines_from-line (acc ++ (c ∷ [])) l rest h.1
    ∙ ap (λ t. t ∷ lines_from [] rest) (append_assoc acc (c ∷ []) l)

spaces-line : (n : ℕ) → Lacks 10 (spaces n)
spaces-line zero = tt
spaces-line (suc n) = ((λ e. omega arith), spaces-line n)

line-Lacks : (e : Entry) → IsEntry e → Lacks 10 (line e)
line-Lacks e h =
    append-Lacks 10 (spaces e.before_key ++ (e.key ++ spaces e.behind_key)) _
      (append-Lacks 10 (spaces e.before_key) _ (spaces-line e.before_key)
        (append-Lacks 10 e.key _ h.key_line (spaces-line e.behind_key)))
      (
        (λ z. omega arith),
        append-Lacks 10 (spaces e.before_value) _ (spaces-line e.before_value)
            (append-Lacks 10 e.value _ h.value_line (spaces-line e.behind_value)),
      )

stored : List Entry → ConfigMap → ConfigMap
stored [] m = m
stored (e ∷ es) m = stored es (insert e.key e.value m)

load_lines-print :
    (es : List Entry) (m : ConfigMap)
    → AllEntries es
    → load_lines (lines_from [] (print es)) m ≡ stored es m
unfolding load_lines stored
load_lines-print [] m h = unfold lines_from in refl
load_lines-print (e ∷ es) m h =
    ap (λ ls. load_lines ls m) (lines_from-line [] (line e) (print es) (line-Lacks e h.0))
    ∙ ap (load_lines (lines_from [] (print es))) (
        load_line-entry e.before_key e.behind_key e.key
          (spaces e.before_value ++ (e.value ++ spaces e.behind_value)) m h.0.key_tight
          h.0.key_plain h.0.key_unequal
        ∙ ap (λ v. insert e.key v m)
            (trim-padded e.before_value e.behind_value e.value h.0.value_tight))
    ∙ load_lines-print es (insert e.key e.value m) h.1

abbrev earlier : Option Bytes → Option Bytes → Option Bytes
earlier (some v) o = some v
earlier none o = o

find-stored :
    (key : Bytes) (es : List Entry) (m : ConfigMap)
    → find key (stored es m) ≡ earlier (find key m) (first_value key es)
unfolding stored first_value
find-stored key [] m = ground arith
find-stored key (e ∷ es) m =
    ground (arith, find-stored key es (insert e.key e.value m), find-insert e.key key e.value m)

find-nothing : (key : Bytes) (o : Option Bytes) → earlier (find key []) o ≡ o
unfolding find
find-nothing key o = refl

abbrev pub or_nothing : Option Bytes → Bytes
or_nothing none = []
or_nothing (some v) = v

-- A file whose lines are entries, with any spaces round the keys and the values: loaded into an
-- empty configuration, it gives under each key the value of the first line with that key, or the
-- empty text where no line has it.
pub load-print :
    (es : List Entry) (key : Bytes)
    → AllEntries es
    → load key (load_config_file (some (print es)) []) ≡ or_nothing (first_value key es)
unfolding load_config_file load or_empty
load-print es key h =
    ap (λ m. or_empty (find key m)) (load_lines-print es [] h)
    ∙ ap or_empty (find-stored key es [] ∙ find-nothing key (first_value key es))
    ∙ same (first_value key es)
  where
    same : (o : Option Bytes) → or_empty o ≡ or_nothing o
    same none = refl
    same (some v) = refl
