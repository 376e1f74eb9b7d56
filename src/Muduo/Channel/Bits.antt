-- ===== src/Muduo/Channel/Bits.antt =====
-- mymuduo-main/include/mymuduo/Channel.h: the bits of `events_`.
use mprpc_main.Common.{ℕ, zero, suc, ◌<◌, ◌≡◌, refl, Bool, true, false, not, ◌&&◌, ◌==◌, arith, ltb}
use Prim.Native.Nat.{bit_and, bit_or}
use mprpc_main.Muduo.Channel.{
  Channel, Index, new, added, deleted, Poller, Watch, update_channel, update_at, set_events,
  able_write, disable_write, is_write, without, write_event,
}

-- The masks below 8, one by one.
each_mask : (P : ℕ → Type 0) → P 0 → P 1 → P 2 → P 3 → P 4 → P 5 → P 6 → P 7 → (e : ℕ) → e < 8 → P e
each_mask P p0 p1 p2 p3 p4 p5 p6 p7 zero h = p0
each_mask P p0 p1 p2 p3 p4 p5 p6 p7 (suc zero) h = p1
each_mask P p0 p1 p2 p3 p4 p5 p6 p7 (suc (suc zero)) h = p2
each_mask P p0 p1 p2 p3 p4 p5 p6 p7 (suc (suc (suc zero))) h = p3
each_mask P p0 p1 p2 p3 p4 p5 p6 p7 (suc (suc (suc (suc zero)))) h = p4
each_mask P p0 p1 p2 p3 p4 p5 p6 p7 (suc (suc (suc (suc (suc zero))))) h = p5
each_mask P p0 p1 p2 p3 p4 p5 p6 p7 (suc (suc (suc (suc (suc (suc zero)))))) h = p6
each_mask P p0 p1 p2 p3 p4 p5 p6 p7 (suc (suc (suc (suc (suc (suc (suc zero))))))) h = p7
each_mask P p0 p1 p2 p3 p4 p5 p6 p7 (suc (suc (suc (suc (suc (suc (suc (suc e)))))))) h =
    absurd (omega arith)

writes : ℕ → Bool
writes e = not (bit_and write_event e == 0)

sets : ℕ → Bool
unfolding writes
sets e = writes (bit_or e write_event) && ltb (bit_or e write_event) 8

clears : ℕ → Bool
unfolding writes without
clears e = not (writes (without write_event e)) && ltb (without write_event e) 8

sets-true : (e : ℕ) → e < 8 → sets e ≡ true
unfolding sets
sets-true = each_mask (λ e. sets e ≡ true) refl refl refl refl refl refl refl refl

clears-true : (e : ℕ) → e < 8 → clears e ≡ true
unfolding clears
clears-true = each_mask (λ e. clears e ≡ true) refl refl refl refl refl refl refl refl

events-update_at :
    (i : Index) (c : Channel) (p : Poller) → (update_at i c p).channel.events ≡ c.events
unfolding update_at
events-update_at new c p = refl
events-update_at added c p = ground arith
events-update_at deleted c p = refl

events-set_events : (e : ℕ) (w : Watch) → (set_events e w).channel.events ≡ e
unfolding set_events update_channel
events-set_events e w =
    events-update_at w.channel.index (record (w.channel) { events = e }) w.poller

-- After `ablewrite` the channel awaits a write.
pub able_write_lem :
    (w : Watch)
    → w.channel.events < 8
    → (is_write (able_write w) ≡ true) × ((able_write w).channel.events < 8)
unfolding is_write able_write sets writes
able_write_lem w h =
    rw (events-set_events (bit_or w.channel.events write_event) w)
      (ground (arith, sets-true w.channel.events h))

pub disable_write_lem :
    (w : Watch)
    → w.channel.events < 8
    → (is_write (disable_write w) ≡ false) × ((disable_write w).channel.events < 8)
unfolding is_write disable_write clears writes
disable_write_lem w h =
    rw (events-set_events (without write_event w.channel.events) w)
      (ground (arith, clears-true w.channel.events h))
