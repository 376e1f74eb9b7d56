-- ===== src/Muduo/Channel/Poll.antt =====
-- `poll` of mymuduo-main/src/EPollPoller.cpp: which channels are active. The poller's array of
-- events grows when it was full.
use mprpc_main.Common.{
  ℕ, ◌*◌, ◌≡◌, refl, ap, Option, none, some, List, [], ◌∷◌, length, map, ◌==◌, if◌then◌else◌, find,
  nat_eq, arith,
}
use mprpc_main.Muduo.Channel.{Channel, set_revents}

-- An `epoll_event`: the address of a channel, and the bits.
abbrev pub Event : Type 0
Event = ℕ × ℕ

-- The channels of a loop, by their addresses.
abbrev pub Channels : Type 0
Channels = List (ℕ × Channel)

mark : ℕ → ℕ → Channels → Channels
mark address revents [] = []
mark address revents ((a, c) ∷ channels) =
    let later = mark address revents channels in
    if a == address then (a, set_revents revents c) ∷ channels else (a, c) ∷ later

-- `fillActiveChannels`: the active channels, in order, and the channels with their bits.
pub fill_active_channels : List Event → Channels → List ℕ × Channels
unfolding mark
fill_active_channels [] channels = ([], channels)
fill_active_channels ((address, revents) ∷ events) channels =
    let r = fill_active_channels events (mark address revents channels) in (address ∷ r.0, r.1)

-- `poll`, with the size of the array; `epoll_wait` is told that size, and `none` is -1.
pub poll : (ℕ → Option (List Event)) → ℕ → Channels → List ℕ × (ℕ × Channels)
unfolding fill_active_channels
poll epoll_wait size channels = elim (epoll_wait size) [
  | none ↦ ([], (size, channels))
  | some events ↦
      let r = fill_active_channels events channels in
      (r.0, (if length events == size then size * 2 else size, r.1))
]

fill_active_channels-order :
    (events : List Event) (channels : Channels)
    → (fill_active_channels events channels).0 ≡ map (λ e. e.0) events
unfolding fill_active_channels
fill_active_channels-order [] channels = refl
fill_active_channels-order ((address, revents) ∷ events) channels =
    ap (λ l. address ∷ l) (fill_active_channels-order events (mark address revents channels))

mark-find :
    (address revents : ℕ) (channels : Channels) (c : Channel)
    → find address channels ≡ some c
    → find address (mark address revents channels) ≡ some (set_revents revents c)
unfolding mark find
mark-find address revents [] c h = cc
mark-find address revents ((a, c') ∷ channels) c h =
    ground (arith, mark-find address revents channels c)
