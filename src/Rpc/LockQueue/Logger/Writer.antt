-- ===== src/Rpc/LockQueue/Logger/Writer.antt =====
-- mprpc-main/src/logger.cc: the writing thread, with `Pop` under the mutex and the write behind it as
-- steps of their own, between which other threads log or the destructor begins.
use mprpc_main.Common.{
  ◌≡◌, ◌≢◌, refl, sym, ap, ap₂, ◌∙◌, Bool, true, false, not, Option, none, some, List, [], ◌∷◌,
  ◌++◌, Bytes, if◌then◌else◌, append_assoc, append-nil, ◌⊎◌, inl, inr, Bool-cases, subst,
}
use mprpc_main.Rpc.LockQueue.{LockQueue, new, push, pop, pop_front, ready, close}

-- `hand` is the local `msg` between `Pop` and the write. `dropped` are messages whose file did not
-- open.
pub record Writer : Type 0 where
  pub lock_queue : LockQueue Bytes
  pub is_exit : Bool
  pub writing : Bool
  pub hand : Option Bytes
  pub written : List Bytes
  pub dropped : List Bytes

abbrev pub start : Writer
start = record {
  lock_queue = new;
  is_exit = false;
  writing = true;
  hand = none;
  written = [];
  dropped = [];
}

-- `Log`, and the two halves of the destructor's beginning.
unfoldable pub log : Bytes → Writer → Writer
log msg l = record l { lock_queue = push msg l.lock_queue }

unfoldable pub set_exit : Writer → Writer
set_exit l = record l { is_exit = true }

unfoldable pub close_queue : Writer → Writer
close_queue l = record l { lock_queue = close l.lock_queue }

-- What `FlushLogThread` does with what `Pop` returned, up to the opening of the file.
unfoldable pub hold : Bytes → LockQueue Bytes → Writer → Writer
hold [] q l = record l { lock_queue = q; writing = not l.is_exit }
hold (c ∷ cs) q l = record l { lock_queue = q; hand = some (c ∷ cs) }

unfoldable pub taken_from : Option (Bytes × LockQueue Bytes) → Writer → Option Writer
unfolding hold
taken_from none l = none
taken_from (some (msg, q)) l = some (hold msg q l)

-- `FlushLogThread` up to the file: `none` while `Pop` waits.
unfoldable pub take_message : Writer → Option Writer
unfolding taken_from
take_message l = taken_from (pop [] l.lock_queue) l

-- The write, by whether the file opens: an `ofstream` that is not open takes nothing.
unfoldable pub write_out : Bool → Bytes → Writer → Writer
write_out true msg l = record l { hand = none; written = l.written ++ (msg ∷ []) }
write_out false msg l = record l { hand = none; dropped = l.dropped ++ (msg ∷ []) }

-- The states that the logger comes to, with the messages that `Push` has taken, in order. All
-- messages begin with a level in brackets, so none is empty.
pub data Walk : List Bytes → Writer → Type 0 where
  begun : Walk [] start
  logged :
      {taken : List Bytes} {l : Writer}
      → Walk taken l
      → (msg : Bytes) → msg ≢ []
      → Walk (if l.lock_queue.is_close then taken else taken ++ (msg ∷ [])) (log msg l)
  popped :
      {taken : List Bytes} {l : Writer}
      → Walk taken l
      → l.writing ≡ true
      → l.hand ≡ none
      → (l' : Writer) → take_message l ≡ some l'
      → Walk taken l'
  put :
      {taken : List Bytes} {l : Writer}
      → Walk taken l
      → (msg : Bytes) → l.hand ≡ some msg
      → (opened : Bool) → Walk taken (write_out opened msg l)
  exiting : {taken : List Bytes} {l : Writer} → Walk taken l → Walk taken (set_exit l)
  closing :
      {taken : List Bytes} {l : Writer}
      → Walk taken l
      → l.is_exit ≡ true
      → Walk taken (close_queue l)

-- An order-keeping mixture of two lists.
pub data Mixes {A : Type 0} : List A → List A → List A → Type 0 where
  none_left : Mixes [] [] []
  from_left : {x : A} {xs ys zs : List A} → Mixes xs ys zs → Mixes (x ∷ xs) ys (x ∷ zs)
  from_right : {y : A} {xs ys zs : List A} → Mixes xs ys zs → Mixes xs (y ∷ ys) (y ∷ zs)

Mixes-left :
    {A : Type 0} {xs ys zs : List A} (x : A)
    → Mixes xs ys zs
    → Mixes (xs ++ (x ∷ [])) ys (zs ++ (x ∷ []))
Mixes-left x none_left = from_left none_left
Mixes-left x (from_left m) = from_left (Mixes-left x m)
Mixes-left x (from_right m) = from_right (Mixes-left x m)

Mixes-right :
    {A : Type 0} {xs ys zs : List A} (y : A)
    → Mixes xs ys zs
    → Mixes xs (ys ++ (y ∷ [])) (zs ++ (y ∷ []))
Mixes-right y none_left = from_right none_left
Mixes-right y (from_left m) = from_left (Mixes-right y m)
Mixes-right y (from_right m) = from_right (Mixes-right y m)

abbrev pub in_hand : Option Bytes → List Bytes
in_hand none = []
in_hand (some msg) = msg ∷ []

abbrev NoneEmpty : List Bytes → Type 0
NoneEmpty [] = Unit {0}
NoneEmpty (m ∷ ms) = (m ≢ []) × NoneEmpty ms

NoneEmpty-append :
    (ms : List Bytes) (m : Bytes) → NoneEmpty ms → m ≢ [] → NoneEmpty (ms ++ (m ∷ []))
NoneEmpty-append [] m h k = (k, tt)
NoneEmpty-append (x ∷ ms) m h k = (h.0, NoneEmpty-append ms m h.1 k)

-- `past` are the messages that the thread is through with.
record Keeps (taken : List Bytes) (l : Writer) : Type 0 where
  past : List Bytes
  mixes : Mixes l.written l.dropped past
  all : taken ≡ past ++ (in_hand l.hand ++ l.lock_queue.queue)
  solid : NoneEmpty l.lock_queue.queue
  ends :
      (l.writing ≡ true)
      ⊎ ((l.lock_queue.queue ≡ []) × (l.lock_queue.is_close ≡ true) × (l.hand ≡ none))

some_eq : {A : Type 0} {a b : A} → some a ≡ some b → a ≡ b
some_eq e = cc

module _ (taken : List Bytes) (l : Writer) where
  log-Keeps :
      (msg : Bytes)
      → msg ≢ []
      → Keeps taken l
      → Keeps (if l.lock_queue.is_close then taken else taken ++ (msg ∷ [])) (log msg l)
  unfolding log push
  log-Keeps msg h k = elim (Bool-cases l.lock_queue.is_close) [
    | inl e ↦ rw e (record {
      past = k.past;
      mixes = k.mixes;
      all = k.all;
      solid = k.solid;
      ends = closed k.ends;
    })
    | inr e ↦ rw e (record {
      past = k.past;
      mixes = k.mixes;
      all =
          ap (λ t. t ++ (msg ∷ [])) k.all
          ∙ append_assoc k.past (in_hand l.hand ++ l.lock_queue.queue) (msg ∷ [])
          ∙ ap (λ t. k.past ++ t) (append_assoc (in_hand l.hand) l.lock_queue.queue (msg ∷ []));
      solid = NoneEmpty-append l.lock_queue.queue msg k.solid h;
      ends = still_on e k.ends;
    })
  ]
    where
      closed : {P Q R : Type 0} {b : Bool} → P ⊎ (Q × (b ≡ true) × R) → P ⊎ (Q × (true ≡ true) × R)
      closed (inl w) = inl w
      closed (inr (x, c, y)) = inr (x, refl, y)

      still_on :
          {P Q : Type 0}
          → l.lock_queue.is_close ≡ false
          → (l.writing ≡ true) ⊎ (P × (l.lock_queue.is_close ≡ true) × Q)
          → {R : Type 0} → (l.writing ≡ true) ⊎ R
      still_on e (inl w) = inl w
      still_on e (inr (x, c, y)) = cc

  close-Keeps : Keeps taken l → Keeps taken (close_queue l)
  unfolding close_queue close
  close-Keeps k = record {
    past = k.past;
    mixes = k.mixes;
    all = k.all;
    solid = k.solid;
    ends = elim k.ends [ inl w ↦ inl w | inr (x, c, y) ↦ inr (x, refl, y) ];
  }

  exit-Keeps : Keeps taken l → Keeps taken (set_exit l)
  unfolding set_exit
  exit-Keeps k = record {
    past = k.past;
    mixes = k.mixes;
    all = k.all;
    solid = k.solid;
    ends = k.ends;
  }

  write-Keeps :
      (opened : Bool) (msg : Bytes)
      → l.hand ≡ some msg
      → Keeps taken l
      → Keeps taken (write_out opened msg l)
  unfolding write_out
  write-Keeps opened msg h k = both opened
    where
      through : taken ≡ (k.past ++ (msg ∷ [])) ++ l.lock_queue.queue
      through =
          k.all
          ∙ ap (λ o. k.past ++ (in_hand o ++ l.lock_queue.queue)) h
          ∙ sym (append_assoc k.past (msg ∷ []) l.lock_queue.queue)

      on :
          (l.writing ≡ true)
          ⊎ ((l.lock_queue.queue ≡ [])
              × (l.lock_queue.is_close ≡ true)
              × (◌≡◌ {A = Option Bytes} none none))
      on = elim k.ends [ inl w ↦ inl w | inr (x, c, y) ↦ cc ]

      both : (b : Bool) → Keeps taken (write_out b msg l)
      both true = record {
        past = k.past ++ (msg ∷ []);
        mixes = Mixes-left msg k.mixes;
        all = through;
        solid = k.solid;
        ends = on;
      }
      both false = record {
        past = k.past ++ (msg ∷ []);
        mixes = Mixes-right msg k.mixes;
        all = through;
        solid = k.solid;
        ends = on;
      }

  take-Keeps :
      (q : List Bytes) (l' : Writer)
      → l.lock_queue.queue ≡ q
      → l.writing ≡ true
      → l.hand ≡ none
      → taken_from
          (if ready q l.lock_queue.is_close then some (pop_front q [] l.lock_queue) else none)
          l
        ≡ some l'
      → Keeps taken l
      → Keeps taken l'
  unfolding taken_from pop_front ready hold
  take-Keeps [] l' e w n f k = elim (Bool-cases l.lock_queue.is_close) [
    | inl c ↦
        let g : some (record l { writing = not l.is_exit }) ≡ some l' = sym (rw c refl) ∙ f in
        subst (Keeps taken) (some_eq g) (record {
          past = k.past;
          mixes = k.mixes;
          all = k.all;
          solid = k.solid;
          ends = inr (e, c, n);
        })
    | inr c ↦ cc
  ]
  take-Keeps ([] ∷ q) l' e w n f k =
      let solid : NoneEmpty ([] ∷ q) = subst NoneEmpty e k.solid in absurd (solid.0 refl)
  take-Keeps ((c ∷ cs) ∷ q) l' e w n f k =
      let solid : NoneEmpty ((c ∷ cs) ∷ q) = subst NoneEmpty e k.solid in
      subst (Keeps taken) (some_eq f) (record {
        past = k.past;
        mixes = k.mixes;
        all = k.all ∙ ap₂ (λ o t. k.past ++ (in_hand o ++ t)) n e;
        solid = solid.1;
        ends = inl w;
      })

Walk-Keeps : {taken : List Bytes} {l : Writer} → Walk taken l → Keeps taken l
unfolding new take_message pop
Walk-Keeps begun = record { past = []; mixes = none_left; all = refl; solid = tt; ends = inl refl }
Walk-Keeps (logged {taken} {l} r msg h) = log-Keeps taken l msg h (Walk-Keeps r)
Walk-Keeps (popped {taken} {l} r w n l' e) =
    take-Keeps taken l l.lock_queue.queue l' refl w n e (Walk-Keeps r)
Walk-Keeps (put {taken} {l} r msg h opened) = write-Keeps taken l opened msg h (Walk-Keeps r)
Walk-Keeps (exiting {taken} {l} r) = exit-Keeps taken l (Walk-Keeps r)
Walk-Keeps (closing {taken} {l} r x) = close-Keeps taken l (Walk-Keeps r)

-- However the threads that log, the two steps of the writing thread and the destructor take turns:
-- the messages taken are, in order, those that the thread is through with, then the one that it has
-- taken out of the queue and not written yet, if there is one, and then those queued. Of those that
-- it is through with, each is in the file or was dropped since the file did not open, and both in
-- their order. Once the thread has ended, it is through with all of them.
pub Walk-written :
    {taken : List Bytes} {l : Writer}
    → Walk taken l
    → (past : List Bytes) × Mixes l.written l.dropped past
      × (taken ≡ past ++ (in_hand l.hand ++ l.lock_queue.queue))
      × ((l.writing ≡ true) ⊎ (taken ≡ past))
Walk-written {taken} {l} r =
    let k = Walk-Keeps r in
    (
      k.past,
      k.mixes,
      k.all,
      elim k.ends [
        | inl on ↦ inl on
        | inr (empty, shut, free) ↦
            inr (k.all ∙ ap₂ (λ o t. k.past ++ (in_hand o ++ t)) free empty ∙ append-nil k.past)
      ],
    )
