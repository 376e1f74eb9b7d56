-- ===== src/Muduo/Channel.antt =====
-- mymuduo-main/src/Channel.cpp, include/mymuduo/Channel.h, src/EPollPoller.cpp and src/Poller.cpp:
-- a channel and the poller of its loop. The calls of `epoll_ctl` are a trace, in order.
pub mod Interest
pub mod Poll
pub mod Bits
mod Tests
use Prim.Native.Nat.{bit_and, bit_or}
use mprpc_main.Common.{
  ℕ, ◌-◌, ◌^◌, Bool, true, false, not, ◌&&◌, Option, none, some, List, [], ◌∷◌, ◌++◌, ◌==◌,
  if◌then◌else◌, find, assign, erase, nat_eq, take, length, ltb, ◌*◌,
}

-- `kNew`, `kAdded` and `kDeleted`.
pub data Index : Type 0 where
  new added deleted : Index

-- The event bits of <sys/epoll.h>.
abbrev pub epollin : ℕ
epollin = 1

abbrev pub epollpri : ℕ
epollpri = 2

abbrev pub epollout : ℕ
epollout = 4

abbrev pub epollerr : ℕ
epollerr = 8

abbrev pub epollhup : ℕ
epollhup = 16

abbrev pub epollrdhup : ℕ
epollrdhup = 0x2000

abbrev pub no_event : ℕ
no_event = 0

abbrev pub read_event : ℕ
read_event = 3

abbrev pub write_event : ℕ
write_event = 4

-- `self` is the channel's address. `alive` tells whether `tie_.lock()` finds its object.
pub record Channel : Type 0 where
  pub self : ℕ
  pub fd : ℕ
  pub events : ℕ
  pub revents : ℕ
  pub index : Index
  pub tied : Bool

pub create : ℕ → ℕ → Channel
create self fd = record { self = self; fd = fd; events = 0; revents = 0; index = new; tied = false }

pub data Ctl : Type 0 where
  ctl_add ctl_mod : ℕ → ℕ → Ctl
  ctl_del : ℕ → Ctl

-- `channels_` of the poller, and what it told the kernel.
pub record Poller : Type 0 where
  pub channels : List (ℕ × ℕ)
  pub ctls : List Ctl

-- A channel beside the poller of its loop.
pub record Watch : Type 0 where
  pub channel : Channel
  pub poller : Poller

-- `EPollPoller::update`.
call_ctl : Ctl → Poller → Poller
call_ctl ctl p = record p { ctls = p.ctls ++ (ctl ∷ []) }

is_noall : Channel → Bool
is_noall c = c.events == no_event

add_channel : Channel → Poller → Watch
unfolding call_ctl
add_channel c p = record {
  channel = record c { index = added };
  poller = call_ctl (ctl_add c.fd c.events) p;
}

update_at : Index → Channel → Poller → Watch
unfolding add_channel call_ctl is_noall
update_at new c p = add_channel c (record p { channels = assign c.fd c.self p.channels })
update_at deleted c p = add_channel c p
update_at added c p =
    if is_noall c
    then record { channel = record c { index = deleted }; poller = call_ctl (ctl_del c.fd) p }
    else record { channel = c; poller = call_ctl (ctl_mod c.fd c.events) p }

-- `EPollPoller::updateChannel`.
pub update_channel : Channel → Poller → Watch
unfolding update_at
update_channel c p = update_at c.index c p

remove_at : Index → Channel → Poller → Poller
unfolding call_ctl
remove_at added c p = call_ctl (ctl_del c.fd) p
remove_at new c p = p
remove_at deleted c p = p

-- `EPollPoller::removeChannel`.
pub remove_channel : Channel → Poller → Watch
unfolding remove_at
remove_channel c p = record {
  channel = record c { index = new };
  poller = remove_at c.index c (record p { channels = erase c.fd p.channels });
}

-- `Poller::hasChannel`.
pub has_channel : Channel → Poller → Bool
has_channel c p = elim (find c.fd p.channels) [ none ↦ false | some self ↦ self == c.self ]

set_events : ℕ → Watch → Watch
unfolding update_channel
set_events events w = update_channel (record (w.channel) { events = events }) w.poller

-- `~mask`, of a 32-bit `int`.
without : ℕ → ℕ → ℕ
without mask events = bit_and events (2 ^ 32 - 1 - mask)

-- `ableread` and the like: the bits, and `update`.
unfoldable pub able_read : Watch → Watch
unfolding set_events
able_read w = set_events (bit_or w.channel.events read_event) w

unfoldable pub disable_read : Watch → Watch
unfolding set_events without
disable_read w = set_events (without read_event w.channel.events) w

unfoldable pub able_write : Watch → Watch
unfolding set_events
able_write w = set_events (bit_or w.channel.events write_event) w

unfoldable pub disable_write : Watch → Watch
unfolding set_events without
disable_write w = set_events (without write_event w.channel.events) w

unfoldable pub disable_all : Watch → Watch
unfolding set_events
disable_all w = set_events no_event w

unfoldable pub remove : Watch → Watch
unfolding remove_channel
remove w = remove_channel w.channel w.poller

unfoldable pub tie : Watch → Watch
tie w = record w { channel = record (w.channel) { tied = true } }

unfoldable pub is_write : Watch → Bool
is_write w = not (bit_and write_event w.channel.events == 0)

-- `Setrevents`, called by `fillActiveChannels`.
unfoldable pub set_revents : ℕ → Channel → Channel
set_revents revents c = record c { revents = revents }

-- The callbacks of a channel, in the order of the calls.
pub data Callback : Type 0 where
  on_close on_error on_read on_write : Callback

has_bits : ℕ → ℕ → Bool
has_bits revents mask = not (bit_and revents mask == 0)

call_if : Bool → Callback → List Callback
call_if true c = c ∷ []
call_if false c = []

-- `handleEventGuard`, where all four callbacks are set.
pub handle_event_guard : ℕ → List Callback
unfolding has_bits call_if
handle_event_guard revents =
    call_if (has_bits revents epollhup && not (has_bits revents epollin)) on_close
    ++ (call_if (has_bits revents epollerr) on_error
        ++ (call_if (has_bits revents (bit_or epollin (bit_or epollpri epollrdhup))) on_read
            ++ call_if (has_bits revents epollout) on_write))

-- `handleEvent`: nothing is called for a tied channel whose object is gone.
pub handle_event : Bool → Channel → List Callback
unfolding handle_event_guard
handle_event alive c =
    if c.tied
    then if alive then handle_event_guard c.revents else []
    else handle_event_guard c.revents
