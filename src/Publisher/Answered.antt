-- ===== src/Publisher/Answered.antt =====
-- connection.py: every publish on a connection comes to an end once the broker answers: no permit is
-- lost on any path, so no publish waits for one that never comes.
use acemq_python_amqp.Prelude.{
  ℕ, ◌+◌, ◌-◌, ◌<◌, ◌≡◌, refl, ◌∙◌, false, some, none, List, [], ◌∷◌, map, arith,
}
use acemq_python_amqp.Retry.{Duration}
use acemq_python_amqp.Publisher.Outstanding.{
  Request, Gate, Stage, called, waiting, writing, over, Reply, Wording, Weather, granted, look,
  acquire, after_look, after_permit, publish_raw, take_permit, give_permit, open_gate,
}
use acemq_python_amqp.Publisher.Interleaved.{
  Task, at_stage, is_writing, writers, looks, is_granted, hears, here, there, Reach, start,
  then_moves, Reach-IsBalanced,
}

-- A connection that is not blocked, a permit that comes, and an answer.
abbrev pub unhindered : Reply → Weather
unhindered reply = record {
  blocked = some false;
  blocked_reason = none;
  permit = granted;
  reply = reply;
}

module _ (words : Wording) (timeout : Duration) where
  Reach-append :
      (g : Gate) (ts : List Task) (h : Gate) (us : List Task) (k : Gate) (vs : List Task)
      → Reach words timeout g ts h us
      → Reach words timeout h us k vs
      → Reach words timeout g ts k vs
  Reach-append g ts h us _ _ r start = r
  Reach-append g ts h us _ _ r (then_moves {h = j} {us = ws} q m) =
      then_moves (Reach-append g ts h us j ws r q) m

  -- What the tasks behind one task do.
  behind :
      (t : Task) (g : Gate) (ts : List Task) (h : Gate) (us : List Task)
      → Reach words timeout g ts h us
      → Reach words timeout g (t ∷ ts) h (t ∷ us)
  behind t g ts _ _ start = start
  behind t g ts _ _ (then_moves {h = j} {us = ws} q m) = then_moves (behind t g ts j ws q) (there m)

  abbrev released : Stage → Gate → Gate
  released writing g = give_permit g
  released _ g = g

  abbrev all_released : List Task → Gate → Gate
  all_released [] g = g
  all_released (t ∷ ts) g = all_released ts (released t.stage g)

  released_lem :
      (s : Stage) (g : Gate)
      → ((released s g).max_outstanding ≡ g.max_outstanding)
        × ((released s g).permits ≡ g.permits + is_writing s)
        × ((released s g).in_flight ≡ g.in_flight - is_writing s)
  unfolding give_permit
  released_lem called g = ground arith
  released_lem waiting g = ground arith
  released_lem writing g = ground arith
  released_lem (over ending) g = ground arith

  all_released_lem :
      (ts : List Task) (g : Gate)
      → ((all_released ts g).max_outstanding ≡ g.max_outstanding)
        × ((all_released ts g).permits ≡ g.permits + writers ts)
        × ((all_released ts g).in_flight ≡ g.in_flight - writers ts)
  all_released_lem [] g = ground arith
  all_released_lem (t ∷ ts) g =
      ground (arith, released_lem t.stage g, all_released_lem ts (released t.stage g))

  module _ (reply : Request → Reply) (most : ℕ) where
    -- The end of a publish whose confirm, or whose failure, comes.
    unfoldable pub ends : Request → Stage → Stage
    ends r (over ending) = over ending
    ends r called = over (publish_raw words most timeout r (unhindered (reply r)))
    ends r waiting = over (publish_raw words most timeout r (unhindered (reply r)))
    ends r writing = over (publish_raw words most timeout r (unhindered (reply r)))

    abbrev pub heard : Task → Task
    heard t = at_stage t (ends t.request t.stage)

    written : Request → Stage → Stage
    unfolding ends
    written r writing = ends r writing
    written r (over ending) = over ending
    written r called = called
    written r waiting = waiting

    abbrev all_written : List Task → List Task
    all_written [] = []
    all_written (t ∷ ts) = at_stage t (written t.request t.stage) ∷ all_written ts

    write_one :
        (r : Request) (s : Stage) (g : Gate) (ts : List Task)
        → g.max_outstanding ≡ most
        → Reach words timeout g
            (record { request = r; stage = s } ∷ ts)
            (released s g)
            (record { request = r; stage = written r s } ∷ ts)
    unfolding written ends publish_raw after_look look after_permit acquire
    write_one r writing g ts e = then_moves start (here (hears (reply r) refl (rw e)))
    write_one r (over ending) g ts e = start
    write_one r called g ts e = start
    write_one r waiting g ts e = start

    write_all :
        (ts : List Task) (g : Gate)
        → g.max_outstanding ≡ most
        → Reach words timeout g ts (all_released ts g) (all_written ts)
    write_all [] g e = start
    write_all (t ∷ ts) g e =
        let h = released t.stage g in
        let u = at_stage t (written t.request t.stage) in
        Reach-append g (t ∷ ts) h (u ∷ ts) (all_released ts h) (u ∷ all_written ts)
          (write_one t.request t.stage g ts e)
          (behind u h ts (all_released ts h) (all_written ts)
            (write_all ts h ((released_lem t.stage g).0 ∙ e)))

    given_back : (g : Gate) → 0 < g.permits → g ≡ give_permit (take_permit g)
    unfolding give_permit take_permit
    given_back g free = ground arith

    finish_one :
        (r : Request) (s : Stage) (g : Gate) (ts : List Task)
        → g.max_outstanding ≡ most
        → 0 < g.permits
        → is_writing s ≡ 0
        → Reach words timeout g
            (record { request = r; stage = s } ∷ ts)
            g
            (record { request = r; stage = ends r s } ∷ ts)
    unfolding ends look take_permit publish_raw after_look after_permit acquire
    finish_one r (over ending) g ts e free w = start
    finish_one r writing g ts e free w = absurd (omega arith)
    finish_one r waiting g ts e free w =
        then_moves (then_moves start (here (is_granted free refl)))
          (here (hears (reply r) (given_back g free) (rw e)))
    finish_one r called g ts e free w =
        then_moves
          (then_moves (then_moves start (here (looks (some false) none refl)))
            (here (is_granted free refl)))
          (here (hears (reply r) (given_back g free) (rw e)))

    finish_all :
        (ts : List Task) (g : Gate)
        → g.max_outstanding ≡ most
        → 0 < g.permits
        → writers ts ≡ 0
        → Reach words timeout g ts g (map heard ts)
    finish_all [] g e free w = start
    finish_all (t ∷ ts) g e free w =
        Reach-append g (t ∷ ts) g (heard t ∷ ts) g (heard t ∷ map heard ts)
          (finish_one t.request t.stage g ts e free (omega arith))
          (behind (heard t) g ts g (map heard ts) (finish_all ts g e free (omega arith)))

    ends-written :
        (r : Request) (s : Stage)
        → (ends r (written r s) ≡ ends r s) × (is_writing (written r s) ≡ 0)
    unfolding ends written
    ends-written r (over ending) = (refl, refl)
    ends-written r called = (refl, refl)
    ends-written r waiting = (refl, refl)
    ends-written r writing = (refl, refl)

    all_written_lem :
        (ts : List Task)
        → (map heard (all_written ts) ≡ map heard ts) × (writers (all_written ts) ≡ 0)
    all_written_lem [] = (refl, refl)
    all_written_lem (t ∷ ts) = ground (arith, ends-written t.request t.stage, all_written_lem ts)

    -- From every moment that the interleaved publishes of a connection with room for one can reach,
    -- they can go on until every one of them is over, whatever the broker answers to each: those that
    -- were not over return or raise what `publish_raw` makes of that answer, and all the permits are
    -- free again.
    pub all_answered :
        (g : Gate) (ts : List Task)
        → 0 < most
        → Reach words timeout (open_gate most) [] g ts
        → Reach words timeout g ts (open_gate most) (map heard ts)
    all_answered g ts room r =
        let (balanced, bound) = Reach-IsBalanced words timeout most g ts r in
        let kept = all_released_lem ts g in
        let free_again : all_released ts g ≡ open_gate most = ground arith in
        let rest = all_written_lem ts in
        let first = write_all ts g balanced.bound in
        let second =
          finish_all (all_written ts) (all_released ts g) (kept.0 ∙ balanced.bound) (omega arith)
            rest.1 in
        rw (← free_again, ← rest.0)
          (Reach-append g ts (all_released ts g) (all_written ts) (all_released ts g)
            (map heard (all_written ts)) first second)
