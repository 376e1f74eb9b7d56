-- ===== src/Muduo/Server/Connections.antt =====
-- The table of connections of a server: the names of connections.
use mprpc_main.Common.{
  ℕ, ◌≤◌, ◌<◌, ◌^◌, ◌≡◌, refl, sym, ap, subst, ◌∙◌, Bool, true, false, Option, none, some, List,
  ◌++◌, Bytes, bytes_eq, bytes_eq_iff, bytes_key, codes, find, erase, find-assign, find-erase, pos,
  arith, if◌then◌else◌, inl, inr, length, drop, drop-append, stoi, Bool-cases,
}
use mprpc_main.Common.Strings.Decimal.{to_string, stoi-to_string}
use mprpc_main.Muduo.Server.{
  TcpServer, EventLoopThreadPool, conn_name, register, new_connection, remove_connection_in_loop,
  get_next_loop, give, new_server, start, set_thread_num, handle_read, remove_connection,
}

conn_name-inj :
    (name : Bytes) (i j : ℕ) → i < 2 ^ 31 → j < 2 ^ 31 → conn_name name i ≡ conn_name name j → i ≡ j
unfolding conn_name
conn_name-inj name i j h k e =
    same (sym (stoi-to_string (pos i) h) ∙ ap stoi texts ∙ stoi-to_string (pos j) k)
  where
    tail : (n : ℕ) → drop 1 (drop (length name) (conn_name name n)) ≡ to_string (pos n)
    tail n = ap (drop 1) (drop-append (length name) name (codes "#" ++ to_string (pos n)) refl)

    texts : to_string (pos i) ≡ to_string (pos j)
    texts = sym (tail i) ∙ ap (λ s. drop 1 (drop (length name) s)) e ∙ tail j

    same : some (pos i) ≡ some (pos j) → i ≡ j
    same f = cc

-- No name that is still to be given is in the table.
abbrev Fresh : TcpServer → Type 0
Fresh t = (i : ℕ) → t.next_conn_id ≤ i → i < 2 ^ 31 → find (conn_name t.name i) t.connections ≡ none

-- The states that a server comes to.
pub data Reach : TcpServer → Type 0 where
  created : (name : Bytes) → Reach (new_server name)
  sized : (t : TcpServer) (n : ℕ) → Reach t → Reach (record t { pool = set_thread_num n t.pool })
  begun : (t : TcpServer) → Reach t → Reach (start t)
  accepted :
      (t t' : TcpServer) (accept : Option ℕ) → Reach t → handle_read accept t ≡ some t' → Reach t'
  closed : (t : TcpServer) (name : Bytes) → Reach t → Reach (remove_connection name t)
  removed :
      (t : TcpServer) (name : Bytes) (io_loop : ℕ)
      → Reach t
      → Reach (remove_connection_in_loop name io_loop t)

names_differ :
    (name : Bytes) (i j : ℕ)
    → i < j
    → j < 2 ^ 31
    → bytes_eq (conn_name name i) (conn_name name j) ≡ false
names_differ name i j h k = elim (Bool-cases (bytes_eq (conn_name name i) (conn_name name j))) [
  | inl e ↦ absurd (
      omega (
        arith,
        conn_name-inj name i j (omega arith) k
            ((bytes_eq_iff (conn_name name i) (conn_name name j)).0 e),
      ))
  | inr e ↦ e
]

register-Fresh :
    (sockfd : ℕ) (o : Option (ℕ × EventLoopThreadPool)) (t t' : TcpServer)
    → register sockfd o t ≡ some t'
    → Fresh t
    → Fresh t'
unfolding register give
register-Fresh sockfd none t t' e f = absurd_none e
  where
    absurd_none : none ≡ some t' → Fresh t'
    absurd_none g = cc
register-Fresh sockfd (some (io_loop, pool)) t t' e f = subst Fresh (some-inj e) λ i le lt.
    find-assign (conn_name t.name t.next_conn_id) (conn_name t.name i) (sockfd, io_loop)
      t.connections
    ∙ rw (names_differ t.name t.next_conn_id i (omega arith) lt) (f i (omega arith) lt)
  where
    some-inj : {a b : TcpServer} → ◌≡◌ {A = Option TcpServer} (some a) (some b) → a ≡ b
    some-inj g = cc

handle_read-Fresh :
    (accept : Option ℕ) (t t' : TcpServer) → handle_read accept t ≡ some t' → Fresh t → Fresh t'
unfolding handle_read new_connection
handle_read-Fresh none t t' e f = subst Fresh (some-inj e) f
  where
    some-inj : ◌≡◌ {A = Option TcpServer} (some t) (some t') → t ≡ t'
    some-inj g = cc
handle_read-Fresh (some connfd) t t' e f = register-Fresh connfd (get_next_loop t.pool) t t' e f

erased :
    (name other : Bytes) (m : List (Bytes × (ℕ × ℕ)))
    → find other m ≡ none
    → find other (erase name m) ≡ none
erased name other m h = find-erase name other m ∙ cases (bytes_eq name other)
  where
    cases : (b : Bool) → (if b then none else find other m) ≡ none
    cases true = refl
    cases false = h

Reach-Fresh : {t : TcpServer} → Reach t → Fresh t
unfolding new_server start give remove_connection remove_connection_in_loop find
Reach-Fresh (created name) = λ i le lt. refl
Reach-Fresh (sized t n r) = Reach-Fresh r
Reach-Fresh (begun t r) = λ i le lt. ground (arith, Reach-Fresh r i)
Reach-Fresh (accepted t t' accept r e) = handle_read-Fresh accept t t' e (Reach-Fresh r)
Reach-Fresh (closed t name r) = Reach-Fresh r
Reach-Fresh (removed t name io_loop r) =
    λ i le lt. erased name (conn_name t.name i) t.connections (Reach-Fresh r i le lt)

-- However a server's connections come and go: while the counter is below 2 ^ 31, the name that
-- the next connection gets is not in the table, so a new connection replaces none that is there.
pub Reach-next_name :
    {t : TcpServer}
    → Reach t
    → t.next_conn_id < 2 ^ 31
    → find (conn_name t.name t.next_conn_id) t.connections ≡ none
Reach-next_name {t} r h = Reach-Fresh r t.next_conn_id (omega arith) h
