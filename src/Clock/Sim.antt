-- ===== src/Clock/Sim.antt =====
-- clock.py: the state of SimClock, and what other tasks do to it: wait_until, sleep, call_at, and
-- the cancellation of either.
use chrono_daemon.Clock.Waiter.{Waiter, heappush, instant_push}
use chrono_daemon.Common.{
  Bool, List, Option, [], false, if◌then◌else◌, ltb, map, none, some, suc, true, ℕ, ◌==◌, ◌||◌, ◌∷◌,
}
use chrono_daemon.Common.Int.{ℤ}
use chrono_daemon.Floats.{FloatOps, lef}

-- A wake: the clock's time, and the waiter whose event was set or whose callback was called.
pub record Wake (F : Type 0) : Type 0 where
  pub at : F
  pub waiter : Waiter F

-- `woken` stands for the events that are set and the callbacks that were called, oldest first.
pub record SimClock (F : Type 0) : Type 0 where
  pub t : F
  pub settle_rounds : ℕ
  pub waiters : List (Waiter F)
  pub next_seq : ℕ
  pub advancing : Bool
  pub deferred : List (Waiter F)
  pub anchor : Option F
  pub instant_end : F
  pub instant_seq : ℕ
  pub instant : List (Waiter F)
  pub woken : List (Wake F)

-- ValueError, RuntimeError, and whatever a callback, settle() or a cancellation of the driver raises.
pub data Exception : Type 0 where
  value_error runtime_error host_error : Exception

pub data Result (A : Type 0) : Type 0 where
  ok : A → Result A
  raised : Exception → Result A

module _ {F : Type 0} where
  -- `waiter.cancelled = True` on a shared object: every list that holds the waiter sees it.
  unfoldable pub mark : ℕ → Waiter F → Waiter F
  mark k w = if w.seq == k then record w { cancelled = true } else w

  -- _Waiter.cancel
  unfoldable pub cancel : ℕ → SimClock F → SimClock F
  unfolding mark
  cancel k s = record s {
    waiters = map (mark k) s.waiters;
    deferred = map (mark k) s.deferred;
    instant = map (mark k) s.instant;
  }

  -- _drop_cancelled_tops: `while heap and heap[0].cancelled: heappop(heap)`
  unfoldable pub drop_cancelled_tops : List (Waiter F) → List (Waiter F)
  drop_cancelled_tops [] = []
  drop_cancelled_tops (w ∷ ws) = if w.cancelled then drop_cancelled_tops ws else w ∷ ws

  -- event.is_set(), for the event of the sleeper `k`
  unfoldable pub is_set : ℕ → List (Wake F) → Bool
  is_set k [] = false
  is_set k (e ∷ es) = (e.waiter.seq == k) || is_set k es

  -- The `finally` of wait_until, when the sleeper `k` is cancelled at `event.wait()`.
  unfoldable pub abandon : ℕ → SimClock F → SimClock F
  unfolding is_set cancel drop_cancelled_tops
  abandon k s =
      let c = cancel k s in
      if is_set k s.woken then s else record c { waiters = drop_cancelled_tops c.waiters }

module _ {F : Type 0} ⦃fl : FloatOps F⦄ where
  -- SimClock.__init__
  unfoldable pub init : F → ℕ → Result (SimClock F)
  init t0 settle_rounds =
      if ltb settle_rounds 1
      then raised value_error
      else ok (record {
        t = t0;
        settle_rounds = settle_rounds;
        waiters = [];
        next_seq = 0;
        advancing = false;
        deferred = [];
        anchor = none;
        instant_end = fl.neg_inf;
        instant_seq = 0;
        instant = [];
        woken = [];
      })

  unfoldable pub new_waiter : SimClock F → F → ℤ → Option ℕ → Waiter F
  new_waiter s deadline priority callback = record {
    deadline = deadline;
    priority = priority;
    seq = s.next_seq;
    registered_at = s.t;
    callback = callback;
    cancelled = false;
  }

  -- wait_until, from its checkpoint to `event.wait()`: a past deadline returns at once, and any
  -- other registers a sleeper.
  unfoldable pub wait_until : F → ℤ → SimClock F → SimClock F
  unfolding new_waiter heappush
  wait_until deadline priority s = if lef deadline s.t then s else record s {
    waiters = heappush (new_waiter s deadline priority none) s.waiters;
    next_seq = suc s.next_seq;
  }

  -- sleep, from its checkpoint to its call of wait_until: the deadline that it waits for, if any.
  unfoldable pub sleep : F → SimClock F → Option F
  sleep seconds s = if lef seconds fl.nought then none else some (fl.add s.t seconds)

  -- call_at: the anchor is set while an instant is served.
  unfoldable pub call_at : F → ℕ → ℤ → SimClock F → SimClock F
  unfolding new_waiter heappush instant_push
  call_at deadline callback priority s =
      let w = new_waiter s deadline priority (some callback) in
      let later = record s { waiters = heappush w s.waiters; next_seq = suc s.next_seq } in
      let joins = record s { instant = instant_push w s.instant; next_seq = suc s.next_seq } in
      elim s.anchor [ none ↦ later | some a ↦ if lef deadline s.t then joins else later ]

-- What a task other than the driver does to the clock at one point.
pub data Op (F : Type 0) : Type 0 where
  waits : (deadline : F) (priority : ℤ) → Op F
  calls : (deadline : F) (callback : ℕ) (priority : ℤ) → Op F
  cancels : (waiter : ℕ) → Op F
  abandons : (sleeper : ℕ) → Op F

module _ {F : Type 0} ⦃fl : FloatOps F⦄ where
  unfoldable pub apply : Op F → SimClock F → SimClock F
  apply (waits deadline priority) s = wait_until deadline priority s
  apply (calls deadline callback priority) s = call_at deadline callback priority s
  apply (cancels k) s = cancel k s
  apply (abandons k) s = abandon k s

  unfoldable pub apply_all : List (Op F) → SimClock F → SimClock F
  apply_all [] s = s
  apply_all (op ∷ ops) s = apply_all ops (apply op s)
