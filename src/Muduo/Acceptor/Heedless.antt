-- ===== src/Muduo/Acceptor/Heedless.antt =====
-- What an acceptor makes of the kernel's answers.
use mprpc_main.Common.{◌≡◌, refl, Bool, true, false, List, [], ◌∷◌, ◌++◌, ℤ, ap}
use mprpc_main.Muduo.Socket.{
  InetAddress, Event, bound, listened, shut_write, closed, able_read, option_set, logged, or_log,
  so_keepalive, so_reuseaddr, so_reuseport, set_keep_alive, set_reuse_addr, set_reuse_port,
  bind_address,
}
use mprpc_main.Common.{Bytes}
use mprpc_main.Muduo.Socket
use mprpc_main.Muduo.Logger.{LogLevel}
use mprpc_main.Muduo.Acceptor.{Answers, new_acceptor, listen}

-- The events that are no lines of the log.
pub calls : List Event → List Event
calls [] = []
calls (logged level text ∷ es) = calls es
calls (bound fd a ∷ es) = bound fd a ∷ calls es
calls (listened fd ∷ es) = listened fd ∷ calls es
calls (shut_write fd ∷ es) = shut_write fd ∷ calls es
calls (closed fd ∷ es) = closed fd ∷ calls es
calls (able_read fd ∷ es) = able_read fd ∷ calls es
calls (option_set fd o on ∷ es) = option_set fd o on ∷ calls es

calls-append : (es fs : List Event) → calls (es ++ fs) ≡ calls es ++ calls fs
unfolding calls
calls-append [] fs = refl
calls-append (logged level text ∷ es) fs = calls-append es fs
calls-append (bound fd a ∷ es) fs = ap (λ t. bound fd a ∷ t) (calls-append es fs)
calls-append (listened fd ∷ es) fs = ap (λ t. listened fd ∷ t) (calls-append es fs)
calls-append (shut_write fd ∷ es) fs = ap (λ t. shut_write fd ∷ t) (calls-append es fs)
calls-append (closed fd ∷ es) fs = ap (λ t. closed fd ∷ t) (calls-append es fs)
calls-append (able_read fd ∷ es) fs = ap (λ t. able_read fd ∷ t) (calls-append es fs)
calls-append (option_set fd o on ∷ es) fs = ap (λ t. option_set fd o on ∷ t) (calls-append es fs)

calls-or_log :
    (answer : Bool) (level : LogLevel) (text : Bytes) → calls (or_log answer level text) ≡ []
unfolding calls or_log
calls-or_log true level text = refl
calls-or_log false level text = refl

module _ (answer : Bool) (fd : ℤ) where
  calls-set_keep_alive :
      (on : Bool) → calls (set_keep_alive answer fd on) ≡ option_set fd so_keepalive on ∷ []
  unfolding calls set_keep_alive
  calls-set_keep_alive on = ap (λ t. option_set fd so_keepalive on ∷ t) (calls-or_log answer _ _)

  calls-set_reuse_addr :
      (on : Bool) → calls (set_reuse_addr answer fd on) ≡ option_set fd so_reuseaddr on ∷ []
  unfolding calls set_reuse_addr
  calls-set_reuse_addr on = ap (λ t. option_set fd so_reuseaddr on ∷ t) (calls-or_log answer _ _)

  calls-set_reuse_port :
      (on : Bool) → calls (set_reuse_port answer fd on) ≡ option_set fd so_reuseport on ∷ []
  unfolding calls set_reuse_port
  calls-set_reuse_port on = ap (λ t. option_set fd so_reuseport on ∷ t) (calls-or_log answer _ _)

  calls-bind_address : (a : InetAddress) → calls (bind_address answer fd a) ≡ bound fd a ∷ []
  unfolding calls bind_address
  calls-bind_address a = ap (λ t. bound fd a ∷ t) (calls-or_log answer _ _)

  calls-listen : calls (Socket.listen answer fd) ≡ listened fd ∷ []
  unfolding calls Socket.listen
  calls-listen = ap (λ t. listened fd ∷ t) (calls-or_log answer _ _)

  calls-able_read : calls (able_read fd ∷ []) ≡ able_read fd ∷ []
  unfolding calls
  calls-able_read = refl

-- Whatever the kernel answers to an acceptor's calls, that it has no socket or that the address is
-- taken included: the acceptor that is created and told to listen makes the same calls in the same
-- order on the descriptor it got, and it says that it listens.
pub listen-heedless :
    (k : Answers) (addr : InetAddress) (reuseport : Bool)
    → let a = listen k (new_acceptor k addr reuseport) in
      (calls a.events
        ≡ option_set k.socket so_keepalive true
          ∷ option_set k.socket so_reuseaddr true
          ∷ option_set k.socket so_reuseport reuseport
          ∷ bound k.socket addr
          ∷ listened k.socket
          ∷ able_read k.socket
          ∷ [])
      × (a.listening ≡ true)
unfolding listen new_acceptor
listen-heedless k addr reuseport = (
  simp
      (
        calls-append, calls-set_keep_alive, calls-set_reuse_addr, calls-set_reuse_port,
        calls-bind_address, calls-listen, calls-able_read,
      )
      refl,
  refl,
)
