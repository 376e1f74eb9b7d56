-- ===== src/Muduo/Channel/Interest.antt =====
-- mymuduo-main/src/EPollPoller.cpp: the registration of a channel, as the kernel sees it.
use mprpc_main.Common.{
  ℕ, ◌≡◌, refl, ap, ◌∙◌, Option, none, some, List, [], ◌∷◌, ◌++◌, ◌==◌, if◌then◌else◌, arith, erase,
  find, find-assign, find-erase, nat_eq, ◌>>=◌, Bool-cases, inl, inr,
}
use mprpc_main.Muduo.Channel.{
  Channel, Index, new, added, deleted, Ctl, ctl_add, ctl_mod, ctl_del, Poller, Watch, create,
  update_channel, update_at, remove_channel, remove_at, set_events, able_read, disable_read,
  able_write, disable_write, disable_all, remove, tie,
}

-- The interest of the kernel in one descriptor, as `epoll_ctl` is documented: an added descriptor
-- may not be there, one that is changed or deleted must be. `none` is the error.
pub interest_after : ℕ → Option ℕ → Ctl → Option (Option ℕ)
interest_after fd (some e) (ctl_add f events) = if f == fd then none else some (some e)
interest_after fd none (ctl_add f events) = some (if f == fd then some events else none)
interest_after fd (some e) (ctl_mod f events) = some (some (if f == fd then events else e))
interest_after fd none (ctl_mod f events) = if f == fd then none else some none
interest_after fd (some e) (ctl_del f) = some (if f == fd then none else some e)
interest_after fd none (ctl_del f) = if f == fd then none else some none

-- The interest after a trace, if no call fails on the way.
pub interest : ℕ → Option ℕ → List Ctl → Option (Option ℕ)
interest fd now [] = some now
interest fd now (ctl ∷ ctls) = interest_after fd now ctl >>= λ next. interest fd next ctls

interest-append :
    (fd : ℕ) (now : Option ℕ) (ctls : List Ctl) (ctl : Ctl)
    → interest fd now (ctls ++ (ctl ∷ []))
      ≡ (interest fd now ctls >>= λ next. interest_after fd next ctl)
unfolding interest
interest-append fd now [] ctl = bind_some (interest_after fd now ctl)
  where
    bind_some : (m : Option (Option ℕ)) → (m >>= λ next. some next) ≡ m
    bind_some none = refl
    bind_some (some o) = refl
interest-append fd now (c ∷ ctls) ctl =
    later (interest_after fd now c) (λ next. interest-append fd next ctls ctl)
  where
    later :
        (m : Option (Option ℕ))
        → ((next : Option ℕ)
            → interest fd next (ctls ++ (ctl ∷ []))
              ≡ (interest fd next ctls >>= λ n. interest_after fd n ctl))
        → (m >>= λ next. interest fd next (ctls ++ (ctl ∷ [])))
          ≡ ((m >>= λ next. interest fd next ctls) >>= λ n. interest_after fd n ctl)
    later none ih = refl
    later (some next) ih = ih next

abbrev pub expected : Index → ℕ → Option ℕ
expected new events = none
expected added events = some events
expected deleted events = none

abbrev pub entry : Index → ℕ → Option ℕ
entry new self = none
entry added self = some self
entry deleted self = some self

-- The kernel watches the descriptor just while the channel is marked as added, for just the events
-- that the channel wants, and no call of `epoll_ctl` has failed; and the poller's map holds the
-- channel just while it is not marked as new.
pub record InStep (w : Watch) : Type 0 where
  pub watched :
      interest w.channel.fd none w.poller.ctls ≡ some (expected w.channel.index w.channel.events)
  pub mapped : find w.channel.fd w.poller.channels ≡ entry w.channel.index w.channel.self

create-InStep :
    (self fd : ℕ)
    → InStep (record { channel = create self fd; poller = record { channels = []; ctls = [] } })
unfolding create interest find
create-InStep self fd = record { watched = refl; mapped = refl }

told :
    (fd : ℕ) (o : Option ℕ) (ctls : List Ctl) (ctl : Ctl)
    → interest fd none ctls ≡ some o
    → interest fd none (ctls ++ (ctl ∷ [])) ≡ interest_after fd o ctl
told fd o ctls ctl h =
    interest-append fd none ctls ctl ∙ ap (λ m. m >>= λ n. interest_after fd n ctl) h

module _ (c : Channel) (p : Poller) (events : ℕ) where
  update_at-InStep :
      (i : Index)
      → c.index ≡ i
      → interest c.fd none p.ctls ≡ some (expected i events)
      → find c.fd p.channels ≡ entry i c.self
      → InStep (update_at i c p)
  unfolding update_at interest_after
  update_at-InStep new e w m = record {
    watched = told c.fd none p.ctls (ctl_add c.fd c.events) w ∙ ground arith;
    mapped = find-assign c.fd c.fd c.self p.channels ∙ ground arith;
  }
  update_at-InStep added e w m = elim (Bool-cases (c.events == 0)) [
    | inl t ↦ rw t (record {
      watched = told c.fd (some events) p.ctls (ctl_del c.fd) w ∙ ground arith;
      mapped = m;
    })
    | inr t ↦
        rw (t, e)
          (record {
            watched = told c.fd (some events) p.ctls (ctl_mod c.fd c.events) w ∙ ground arith;
            mapped = m;
          })
  ]
  update_at-InStep deleted e w m = record {
    watched = told c.fd none p.ctls (ctl_add c.fd c.events) w ∙ ground arith;
    mapped = m;
  }

  remove_at-InStep :
      (i : Index)
      → interest c.fd none p.ctls ≡ some (expected i events)
      → InStep (record {
        channel = record c { index = new };
        poller = remove_at i c (record p { channels = erase c.fd p.channels });
      })
  unfolding remove_at interest_after
  remove_at-InStep new w = record {
    watched = w;
    mapped = find-erase c.fd c.fd p.channels ∙ ground arith;
  }
  remove_at-InStep added w = record {
    watched = told c.fd (some events) p.ctls (ctl_del c.fd) w ∙ ground arith;
    mapped = find-erase c.fd c.fd p.channels ∙ ground arith;
  }
  remove_at-InStep deleted w = record {
    watched = w;
    mapped = find-erase c.fd c.fd p.channels ∙ ground arith;
  }

set_events-InStep : (events : ℕ) (w : Watch) → InStep w → InStep (set_events events w)
unfolding set_events update_channel
set_events-InStep events w s =
    update_at-InStep (record (w.channel) { events = events }) w.poller w.channel.events
      w.channel.index refl s.watched s.mapped

remove-InStep : (w : Watch) → InStep w → InStep (remove w)
unfolding remove remove_channel
remove-InStep w s = remove_at-InStep w.channel w.poller w.channel.events w.channel.index s.watched

-- The calls that a channel's owner makes.
pub data Op : Type 0 where
  able_reads disable_reads able_writes disable_writes disable_alls removes ties : Op

pub apply : Op → Watch → Watch
apply able_reads w = able_read w
apply disable_reads w = disable_read w
apply able_writes w = able_write w
apply disable_writes w = disable_write w
apply disable_alls w = disable_all w
apply removes w = remove w
apply ties w = tie w

-- Every call of a channel's owner keeps the kernel, the poller's map and the channel in step.
pub apply-InStep : (op : Op) (w : Watch) → InStep w → InStep (apply op w)
unfolding apply able_read disable_read able_write disable_write disable_all tie
apply-InStep able_reads w s = set_events-InStep _ w s
apply-InStep disable_reads w s = set_events-InStep _ w s
apply-InStep able_writes w s = set_events-InStep _ w s
apply-InStep disable_writes w s = set_events-InStep _ w s
apply-InStep disable_alls w s = set_events-InStep _ w s
apply-InStep removes w s = remove-InStep w s
apply-InStep ties w s = record { watched = s.watched; mapped = s.mapped }

pub run : List Op → Watch → Watch
run [] w = w
run (op ∷ ops) w = run ops (apply op w)

run-InStep : (ops : List Op) (w : Watch) → InStep w → InStep (run ops w)
unfolding run
run-InStep [] w s = s
run-InStep (op ∷ ops) w s = run-InStep ops (apply op w) (apply-InStep op w s)

abbrev pub created : ℕ → ℕ → Watch
created self fd = record { channel = create self fd; poller = record { channels = []; ctls = [] } }

-- From a fresh channel on, whatever calls its owner makes in whatever order: no `epoll_ctl` fails
-- for a descriptor that is there already or is not there, the kernel watches the descriptor for
-- just the channel's events while it is marked as added and not at all otherwise, and the
-- poller's map holds it unless it is marked as new.
pub run-created-InStep : (ops : List Op) (self fd : ℕ) → InStep (run ops (created self fd))
run-created-InStep ops self fd = run-InStep ops (created self fd) (create-InStep self fd)
