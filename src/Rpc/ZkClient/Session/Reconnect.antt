-- ===== src/Rpc/ZkClient/Session/Reconnect.antt =====
-- When the watcher of mprpc-main/src/zkclient.cc posts on a semaphore that `Start` has destroyed.
use mprpc_main.Common.{
  ℕ, suc, ◌≡◌, refl, Bool, true, false, ◌&&◌, ◌==◌, Option, none, some, List, [], ◌∷◌,
  if◌then◌else◌, ◌>>=◌, Bool-cases, inl, inr,
}
use mprpc_main.Rpc.ZkClient.Session.{
  ZkClient, waiting, started, Constants, start, post, global_watcher, wake, wait, Happening, event,
  scheduled, happen, run,
}

module _ (k : Constants) where
  pub is_connected : ℕ → ℕ → Bool
  is_connected type state = (type == k.session_event) && (state == k.connected_state)

  -- Whether a connected event is among them.
  pub connects : List Happening → Bool
  unfolding is_connected
  connects [] = false
  connects (event type state ∷ hs) = if is_connected type state then true else connects hs
  connects (scheduled ∷ hs) = connects hs

  -- Whether the thread is scheduled after the session was connected, and the session is connected
  -- again after that.
  pub after_connected : List Happening → Bool
  unfolding connects
  after_connected [] = false
  after_connected (event type state ∷ hs) = after_connected hs
  after_connected (scheduled ∷ hs) = connects hs

  pub reconnects : List Happening → Bool
  unfolding is_connected after_connected
  reconnects [] = false
  reconnects (event type state ∷ hs) =
      let now = after_connected hs in
      let later = reconnects hs in if is_connected type state then now else later
  reconnects (scheduled ∷ hs) = reconnects hs

  abbrev pub is_fault : Option ZkClient → Bool
  is_fault none = true
  is_fault (some c) = false

  run-started :
      (hs : List Happening)
      → is_fault (run k hs (record { zk_handle = true; sem = none; phase = started })) ≡ connects hs
  unfolding run happen global_watcher post wait wake connects is_connected
  run-started [] = refl
  run-started (event type state ∷ hs) = elim (Bool-cases (is_connected type state)) [
    | inl e ↦ rw e refl
    | inr e ↦ rw e (run-started hs)
  ]
  run-started (scheduled ∷ hs) = run-started hs

  run-posted :
      (hs : List Happening) (n : ℕ)
      → is_fault (run k hs (record { zk_handle = true; sem = some (suc n); phase = waiting }))
        ≡ after_connected hs
  unfolding run happen global_watcher post wait wake after_connected is_connected
  run-posted [] n = refl
  run-posted (event type state ∷ hs) n = elim (Bool-cases (is_connected type state)) [
    | inl e ↦ rw e (run-posted hs (suc n))
    | inr e ↦ rw e (run-posted hs n)
  ]
  run-posted (scheduled ∷ hs) n = run-started hs

  run-waiting :
      (hs : List Happening)
      → is_fault (run k hs (record { zk_handle = true; sem = some 0; phase = waiting }))
        ≡ reconnects hs
  unfolding run happen global_watcher post wait wake reconnects is_connected
  run-waiting [] = refl
  run-waiting (event type state ∷ hs) = elim (Bool-cases (is_connected type state)) [
    | inl e ↦ rw e (run-posted hs 0)
    | inr e ↦ rw e (run-waiting hs)
  ]
  run-waiting (scheduled ∷ hs) = run-waiting hs

  -- `Start` with a handle, and then any events of the session and turns of the thread, in any
  -- order: the watcher posts on the semaphore that `Start` has destroyed just if the session is
  -- connected, the thread is scheduled after that, and the session is connected once more after
  -- that. In particular nothing is wrong with one connection.
  pub run-reconnects : (hs : List Happening) → is_fault (start true >>= run k hs) ≡ reconnects hs
  unfolding start
  run-reconnects hs = run-waiting hs
