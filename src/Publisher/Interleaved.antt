-- ===== src/Publisher/Interleaved.antt =====
-- connection.py: publishes that share one connection's gate, as a step relation: any number of tasks,
-- each in `publish_raw`, whose turns interleave at the two waits.
use acemq_python_amqp.Prelude.{
  ℕ, ◌+◌, ◌<◌, ◌≤◌, ◌≡◌, refl, Bool, true, false, Option, some, none, List, [], String, ◌∷◌, arith,
}
use acemq_python_amqp.Retry.{Duration}
use acemq_python_amqp.Publisher.Outstanding.{
  Request, Gate, Stage, called, waiting, writing, over, none_free, interrupted, Reply, Wording,
  look, acquire, conclude_publish, take_permit, give_permit, open_gate,
}

-- A call of `publish_raw`: what it is about, and where it stands.
pub record Task : Type 0 where
  pub request : Request
  pub stage : Stage

abbrev pub at_stage : Task → Stage → Task
at_stage t s = record t { stage = s }

abbrev pub is_writing : Stage → ℕ
is_writing writing = 1
is_writing _ = 0

abbrev pub writers : List Task → ℕ
writers [] = 0
writers (t ∷ ts) = is_writing t.stage + writers ts

module _ (words : Wording) (timeout : Duration) where
  -- A publish that looks does not write yet.
  not_yet :
      (most : ℕ) (r : Request) (blocked : Option Bool) (reason : Option String)
      → is_writing (look words most timeout r blocked reason) ≡ 0
  unfolding look
  not_yet most r (some true) reason = refl
  not_yet most r (some false) reason = refl
  not_yet most r none reason = refl

  -- One turn of one task. It gets a permit only when one is free.
  pub data Turn (r : Request) (g : Gate) : Stage → Gate → Stage → Type 0 where
    looks :
        (blocked : Option Bool) (reason : Option String)
        → {s : Stage} → s ≡ look words g.max_outstanding timeout r blocked reason
        → Turn r g called g s
    is_granted : 0 < g.permits → {h : Gate} → h ≡ take_permit g → Turn r g waiting h writing
    stalls :
        {s : Stage} → s ≡ acquire words g.max_outstanding timeout r none_free → Turn r g waiting g s
    is_interrupted :
        {s : Stage}
        → s ≡ acquire words g.max_outstanding timeout r interrupted
        → Turn r g waiting g s
    hears :
        (reply : Reply)
        → {h : Gate} {s : Stage} → h ≡ give_permit g
        → s ≡ over (conclude_publish words g.max_outstanding timeout r reply)
        → Turn r g writing h s

  -- A task takes a turn, or a new one is called.
  pub data Move (g : Gate) : List Task → Gate → List Task → Type 0 where
    here :
        {t : Task} {ts : List Task} {h : Gate} {s : Stage}
        → Turn t.request g t.stage h s
        → Move g (t ∷ ts) h (at_stage t s ∷ ts)
    there : {t : Task} {ts us : List Task} {h : Gate} → Move g ts h us → Move g (t ∷ ts) h (t ∷ us)
    is_called : (r : Request) → Move g [] g (record { request = r; stage = called } ∷ [])

  pub data Reach (g : Gate) (ts : List Task) : Gate → List Task → Type 0 where
    start : Reach g ts g ts
    then_moves :
        {h k : Gate} {us vs : List Task} → Reach g ts h us → Move h us k vs → Reach g ts k vs

  -- The accounts of a gate: a permit is free or is held by a task that writes.
  pub record IsBalanced (most : ℕ) (g : Gate) (ts : List Task) : Type 0 where
    pub bound : g.max_outstanding ≡ most
    pub held : g.in_flight ≡ writers ts
    pub shared : g.permits + g.in_flight ≡ most

  -- What a move keeps, where `k` tasks elsewhere write.
  record Keeps (k : ℕ) (g h : Gate) (ts us : List Task) : Type 0 where
    same_bound : h.max_outstanding ≡ g.max_outstanding
    counted : h.in_flight ≡ k + writers us
    total : h.permits + h.in_flight ≡ g.permits + g.in_flight

  Turn-Keeps :
      (k : ℕ) (r : Request) (g : Gate) (s : Stage) (h : Gate) (s' : Stage)
      → Turn r g s h s'
      → g.in_flight ≡ k + is_writing s
      → (h.max_outstanding ≡ g.max_outstanding)
        × (h.in_flight ≡ k + is_writing s')
        × (h.permits + h.in_flight ≡ g.permits + g.in_flight)
  unfolding look acquire take_permit give_permit
  Turn-Keeps k r g _ _ _ (looks blocked reason e) c =
      ground (arith, not_yet g.max_outstanding r blocked reason)
  Turn-Keeps k r g _ _ _ (is_granted free e) c = ground arith
  Turn-Keeps k r g _ _ _ (stalls e) c = ground arith
  Turn-Keeps k r g _ _ _ (is_interrupted e) c = ground arith
  Turn-Keeps k r g _ _ _ (hears reply e d) c = ground arith

  Move-Keeps :
      (g : Gate) (k : ℕ) (ts : List Task) (h : Gate) (us : List Task)
      → Move g ts h us
      → g.in_flight ≡ k + writers ts
      → Keeps k g h ts us
  Move-Keeps g k _ h _ (here {t} {ts} {s} turn) c =
      let kept = Turn-Keeps (k + writers ts) t.request g t.stage h s turn (omega arith) in
      ground arith
  Move-Keeps g k _ h _ (there {t} {ts} {us} m) c =
      let kept = Move-Keeps g (k + is_writing t.stage) ts h us m (omega arith) in ground arith
  Move-Keeps g k _ h _ (is_called r) c = ground arith

  -- However the publishes of a connection interleave, at every moment the free permits and the
  -- publishes that wait for the broker add up to the bound, `_in_flight_publishes` is the number of
  -- those publishes, and it is at most the bound.
  pub Reach-IsBalanced :
      (most : ℕ) (g : Gate) (ts : List Task)
      → Reach (open_gate most) [] g ts
      → IsBalanced most g ts × (g.in_flight ≤ most)
  Reach-IsBalanced most _ _ start = ground arith
  Reach-IsBalanced most g ts (then_moves {h} {us} r m) =
      let before = Reach-IsBalanced most h us r in
      let kept = Move-Keeps h 0 us g ts m (omega arith) in ground arith
