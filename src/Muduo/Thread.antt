-- ===== src/Muduo/Thread.antt =====
-- mymuduo-main/src/Thread.cpp: a thread that is started and joined once. What the system answers is
-- an argument; errors are only logged.
mod Tests
use mprpc_main.Common.{
  ℕ, zero, suc, ◌+◌, ◌≤◌, ◌≡◌, refl, sym, ap, ◌∙◌, arith, Bool, true, false, not, ◌&&◌, List, [],
  ◌∷◌, ◌++◌, Bytes, codes, take, if◌then◌else◌, ℤ,
}
use mprpc_main.Common.Strings.Decimal.{to_string}

-- `joinable` is that of the `std::thread`, and `runs` counts the threads that were created. `func`
-- says that `func_` has not been moved away.
pub record Thread : Type 0 where
  pub started : Bool
  pub joined : Bool
  pub func : Bool
  pub name : Bytes
  pub joinable : Bool
  pub runs : ℕ

set_default_name : ℤ → Bytes → Bytes
set_default_name num [] = take 31 (codes "Thread" ++ to_string num)
set_default_name num (c ∷ name) = c ∷ name

-- The constructor; `num` is what `++numCreated_` gives.
pub new : ℤ → Bytes → Thread
unfolding set_default_name
new num name = record {
  started = false;
  joined = false;
  func = true;
  name = set_default_name num name;
  joinable = false;
  runs = 0;
}

-- How `std::thread` and the semaphore answer to `start`.
pub data Answer : Type 0 where
  created no_semaphore no_thread : Answer

-- `start`, where it was not called before: without a thread, the function is lost and the exception
-- goes on to the caller.
start_by : Answer → Thread → Thread
start_by created t = record t { started = true; func = false; joinable = true; runs = t.runs + 1 }
start_by no_semaphore t = record t { started = false }
start_by no_thread t = record t { started = false; func = false }

-- A start behind `no_thread` makes a thread of an empty function, which ends the program in that
-- thread; what that does is not modelled, only that the thread was made.
pub start : Answer → Thread → Thread
unfolding start_by
start answer t = if t.started then t else start_by answer t

-- `join`, which waits for the thread.
pub join : Thread → Thread
join t =
    if not t.started
    then t
    else if t.joined
    then t
    else if not t.joinable
    then t
    else record t { joinable = false; joined = true }

-- The destructor; that of the `std::thread`, which comes behind it, ends the program if the thread
-- is still joinable.
pub destroy : Thread → Thread
destroy t = if t.started && not t.joined && t.joinable then record t { joinable = false } else t

pub data Call : Type 0 where
  starts : Answer → Call
  joins : Call

pub after : List Call → Thread → Thread
unfolding start join
after [] t = t
after (starts answer ∷ calls) t = after calls (start answer t)
after (joins ∷ calls) t = after calls (join t)

-- The states that calls lead to.
data Life (t : Thread) : Type 0 where
  idle : t.started ≡ false → t.joined ≡ false → t.joinable ≡ false → t.runs ≡ 0 → Life t
  running : t.started ≡ true → t.joined ≡ false → t.joinable ≡ true → t.runs ≡ 1 → Life t
  ended : t.started ≡ true → t.joined ≡ true → t.joinable ≡ false → t.runs ≡ 1 → Life t

start_by-Life :
    (answer : Answer) (t : Thread)
    → t.joined ≡ false
    → t.joinable ≡ false
    → t.runs ≡ 0
    → Life (start_by answer t)
unfolding start_by
start_by-Life created t j k r = running refl j refl (omega arith)
start_by-Life no_semaphore t j k r = idle refl j k r
start_by-Life no_thread t j k r = idle refl j k r

if-Life :
    (b : Bool) (t u : Thread)
    → (b ≡ true → Life t)
    → (b ≡ false → Life u)
    → Life (if b then t else u)
if-Life true t u f g = f refl
if-Life false t u f g = g refl

start-Life : (answer : Answer) (t : Thread) → Life t → Life (start answer t)
unfolding start
start-Life answer t (idle s j k r) =
    if-Life t.started t (start_by answer t) (λ e. cc) (λ e. start_by-Life answer t j k r)
start-Life answer t (running s j k r) =
    if-Life t.started t (start_by answer t) (λ e. running s j k r) (λ e. cc)
start-Life answer t (ended s j k r) =
    if-Life t.started t (start_by answer t) (λ e. ended s j k r) (λ e. cc)

joined-Life :
    (t : Thread)
    → Life t
    → not t.started ≡ false
    → t.joined ≡ false
    → Life (record t { joinable = false; joined = true })
joined-Life t (idle s j k r) e f = let g = sym (ap not s) ∙ e in cc
joined-Life t (running s j k r) e f = ended s refl refl r
joined-Life t (ended s j k r) e f = cc

join-Life : (t : Thread) → Life t → Life (join t)
unfolding join
join-Life t h =
    if-Life (not t.started) t _ (λ e. h)
      (λ e.
        if-Life t.joined t _ (λ f. h)
          (λ f. if-Life (not t.joinable) t _ (λ g. h) (λ g. joined-Life t h e f)))

after-Life : (calls : List Call) (t : Thread) → Life t → Life (after calls t)
unfolding after
after-Life [] t h = h
after-Life (starts answer ∷ calls) t h = after-Life calls (start answer t) (start-Life answer t h)
after-Life (joins ∷ calls) t h = after-Life calls (join t) (join-Life t h)

destroy-Life : (t : Thread) → Life t → ((destroy t).joinable ≡ false) × (t.runs ≤ 1)
unfolding destroy
destroy-Life t (idle s j k r) = (ground arith, omega arith)
destroy-Life t (running s j k r) = (ground arith, omega arith)
destroy-Life t (ended s j k r) = (ground arith, omega arith)

-- Whatever calls of `start` and `join` were made on a new thread, and however the system answered:
-- at most one thread was created, and the destructor leaves none that is joinable, so that it does
-- not end the program.
pub destroy-safe :
    (num : ℤ) (name : Bytes) (calls : List Call)
    → ((destroy (after calls (new num name))).joinable ≡ false)
      × ((after calls (new num name)).runs ≤ 1)
unfolding new
destroy-safe num name calls =
    destroy-Life (after calls (new num name))
      (after-Life calls (new num name) (idle refl refl refl refl))
