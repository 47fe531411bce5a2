-- ===== src/Patterns/Idempotency/Window.antt =====
-- idempotency.py: what the in-memory store remembers, and for how long.
use acemq_python_amqp.Prelude.{
  ◌≡◌, ◌≢◌, ◌∙◌, ap, refl, String, true, false, Bool-cases, Option, Option-cases, none, some, List,
  [], ◌∷◌, if◌then◌else◌, arith, inl, inr, str_eq, eq_iff,
}
use acemq_python_amqp.Prelude.Int.{◌<ℤ◌, ◌≤ℤ◌, ltb_ℤ, ◌-ℤ◌}
use acemq_python_amqp.Dict.{Dict, get, pop, get-put, get-pop, Unique, or_else}
use acemq_python_amqp.Envelope.{Instant}
use acemq_python_amqp.Retry.{Duration}
use acemq_python_amqp.Patterns.Idempotency.{
  Claim, Held, Memory, sweep_seen, sweep, claim_swept, claim, confirm_held, confirm, forget,
}

-- What a key is to the store at `now`: claimed within the window or not.
abbrev pub in_window : Instant → Option Held → Option Held
in_window cutoff none = none
in_window cutoff (some held) = if ltb_ℤ cutoff held.claimed_at then some held else none

-- The oldest first.
abbrev pub NoneBefore : Instant → Dict Held → Type 0
NoneBefore t [] = Unit {0}
NoneBefore t ((k, held) ∷ d) = (t ≤ℤ held.claimed_at) × NoneBefore t d

abbrev pub InOrder : Dict Held → Type 0
InOrder [] = Unit {0}
InOrder ((k, held) ∷ d) = NoneBefore held.claimed_at d × InOrder d

none_expired :
    (cutoff t : Instant) (key : String) (d : Dict Held)
    → cutoff <ℤ t
    → NoneBefore t d
    → in_window cutoff (get key d) ≡ get key d
unfolding get
none_expired cutoff t key [] h o = refl
none_expired cutoff t key ((k, held) ∷ d) h (first, o) =
    ground (arith, none_expired cutoff t key d h o)

-- Sweeping the front removes all that has aged out, and nothing else.
get-sweep_seen :
    (cutoff : Instant) (key : String) (d : Dict Held)
    → Unique d
    → InOrder d
    → get key (sweep_seen cutoff d) ≡ in_window cutoff (get key d)
unfolding get sweep_seen
get-sweep_seen cutoff key [] u o = refl
get-sweep_seen cutoff key ((k, held) ∷ d) (fresh, u) (younger, o) =
    elim (Bool-cases (ltb_ℤ cutoff held.claimed_at)) [
      | inl young ↦
          let l = none_expired cutoff held.claimed_at key d (ground arith) younger in ground arith
      | inr old ↦ let l = get-sweep_seen cutoff key d u o in ground (arith, eq_iff key k)
    ]

-- A key claimed after the cutoff is not swept, whatever the order.
get-sweep_seen_young :
    (cutoff : Instant) (key : String) (held : Held) (d : Dict Held)
    → get key d ≡ some held
    → cutoff <ℤ held.claimed_at
    → get key (sweep_seen cutoff d) ≡ some held
unfolding get sweep_seen
get-sweep_seen_young cutoff key held [] e young = cc
get-sweep_seen_young cutoff key held ((k, h) ∷ d) e young =
    ground (arith, get-sweep_seen_young cutoff key held d)

abbrev pub told : Option Held → Claim
told none = Claim.claimed
told (some held) = if held.confirmed then Claim.duplicate else Claim.in_progress

-- A claim that the store grants at `now`.
abbrev pub fresh : String → Instant → String → Option Held
fresh key now j =
    if str_eq j key then some (record { claimed_at = now; confirmed = false }) else none

claim_swept_lem :
    (key j : String) (now : Instant) (s : Memory)
    → ((claim_swept (get key s.seen) key now s).0 ≡ told (get key s.seen))
      × (get j (claim_swept (get key s.seen) key now s).1.seen
          ≡ or_else (get j s.seen) (fresh key now j))
unfolding claim_swept
claim_swept_lem key j now s = elim (Option-cases (get key s.seen)) [
  | inl unseen ↦ (
    rw unseen,
    rw unseen (
        ground (
          arith,
          get-put key j (record { claimed_at = now; confirmed = false }) s.seen,
          eq_iff j key,
        )),
  )
  | inr (held, e) ↦ (rw e, rw e (ground (arith, eq_iff j key)))
]

-- In a store whose keys are in the order of their claims, a claim answers as a map would that forgets
-- each key when its window is over: granted if the key is not within its window, else in progress or
-- a duplicate as it was confirmed; then the store holds what was within its window, and a granted
-- claim besides.
pub claim_refines :
    (key j : String) (now : Instant) (s : Memory)
    → Unique s.seen
    → InOrder s.seen
    → ((claim key now s).0 ≡ told (in_window (now -ℤ s.ttl) (get key s.seen)))
      × (get j (claim key now s).1.seen
          ≡ or_else (in_window (now -ℤ s.ttl) (get j s.seen)) (fresh key now j))
unfolding claim sweep
claim_refines key j now s u o =
    let cutoff = now -ℤ s.ttl in
    let (answer, held) = claim_swept_lem key j now (sweep now s) in
    (
      answer ∙ ap told (get-sweep_seen cutoff key s.seen u o),
      held ∙ ap (λ v. or_else v (fresh key now j)) (get-sweep_seen cutoff j s.seen u o),
    )

-- A call of the store, by whichever consumer makes it.
pub data Request : Type 0 where
  claim_of : String → Instant → Request
  confirm_of : String → Request
  forget_of : String → Request

abbrev pub after_request : Request → Memory → Memory
after_request (claim_of key now) s = (claim key now s).1
after_request (confirm_of key) s = confirm key s
after_request (forget_of key) s = forget key s

abbrev pub after_requests : List Request → Memory → Memory
after_requests [] s = s
after_requests (r ∷ rs) s = after_requests rs (after_request r s)

-- No request forgets the key, and none is made when the window that began at `t` is over.
abbrev pub Leaves : String → Instant → Duration → Request → Type 0
Leaves key t ttl (claim_of k now) = (now -ℤ ttl) <ℤ t
Leaves key t ttl (confirm_of k) = Unit {0}
Leaves key t ttl (forget_of k) = str_eq key k ≡ false

abbrev pub AllLeave : String → Instant → Duration → List Request → Type 0
AllLeave key t ttl [] = Unit {0}
AllLeave key t ttl (r ∷ rs) = Leaves key t ttl r × AllLeave key t ttl rs

-- The store holds the key, claimed at `t`.
pub record Holds (key : String) (t : Instant) (ttl : Duration) (s : Memory) : Type 0 where
  pub held : Held
  pub since : held.claimed_at ≡ t
  pub there : get key s.seen ≡ some held
  pub window : s.ttl ≡ ttl

module _ (key : String) (t : Instant) (ttl : Duration) where
  sweep-Holds :
      (now : Instant) (s : Memory)
      → Holds key t ttl s
      → (now -ℤ ttl) <ℤ t
      → Holds key t ttl (sweep now s)
  unfolding sweep
  sweep-Holds now s h young = record {
    held = h.held;
    since = h.since;
    there =
        rw h.window
          (get-sweep_seen_young (now -ℤ ttl) key h.held s.seen h.there (rw h.since young));
    window = h.window;
  }

  -- A key that is held is not granted, and stays as it is.
  claim_swept-Holds :
      (k : String) (now : Instant) (s : Memory)
      → Holds key t ttl s
      → Holds key t ttl (claim_swept (get k s.seen) k now s).1
  unfolding claim_swept
  claim_swept-Holds k now s h = elim (Option-cases (get k s.seen)) [
    | inl unseen ↦ rw unseen (record {
      held = h.held;
      since = h.since;
      there = ground (
        arith,
        h.there,
        get-put k key (record { claimed_at = now; confirmed = false }) s.seen,
        eq_iff key k,
      );
      window = h.window;
    })
    | inr (held, e) ↦ rw e h
  ]

  confirm-Holds : (k : String) (s : Memory) → Holds key t ttl s → Holds key t ttl (confirm k s)
  unfolding confirm confirm_held
  confirm-Holds k s h = elim (Option-cases (get k s.seen)) [
    | inl unseen ↦ rw unseen h
    | inr (found, e) ↦ rw e (elim (Bool-cases (str_eq key k)) [
      | inl same ↦
          let same_key = eq_iff key k in
          let found_held : found ≡ h.held = ground (arith, h.there) in
          record {
            held = record found { confirmed = true };
            since = ap (λ v. v.claimed_at) found_held ∙ h.since;
            there = get-put k key (record found { confirmed = true }) s.seen ∙ rw same;
            window = h.window;
          }
      | inr other ↦ record {
        held = h.held;
        since = h.since;
        there = get-put k key (record found { confirmed = true }) s.seen ∙ rw other h.there;
        window = h.window;
      }
    ])
  ]

  forget-Holds :
      (k : String) (s : Memory)
      → Holds key t ttl s
      → str_eq key k ≡ false
      → Holds key t ttl (forget k s)
  unfolding forget
  forget-Holds k s h other = record {
    held = h.held;
    since = h.since;
    there = get-pop k key s.seen ∙ rw other h.there;
    window = h.window;
  }

  request-Holds :
      (r : Request) (s : Memory)
      → Holds key t ttl s
      → Leaves key t ttl r
      → Holds key t ttl (after_request r s)
  unfolding claim
  request-Holds (claim_of k now) s h young =
      claim_swept-Holds k now (sweep now s) (sweep-Holds now s h young)
  request-Holds (confirm_of k) s h l = confirm-Holds k s h
  request-Holds (forget_of k) s h other = forget-Holds k s h other

  requests-Holds :
      (rs : List Request) (s : Memory)
      → Holds key t ttl s
      → AllLeave key t ttl rs
      → Holds key t ttl (after_requests rs s)
  requests-Holds [] s h l = h
  requests-Holds (r ∷ rs) s h (l, ls) =
      requests-Holds rs (after_request r s) (request-Holds r s h l) ls

  held-not_granted :
      (now : Instant) (s : Memory)
      → Holds key t ttl s
      → (now -ℤ ttl) <ℤ t
      → (claim key now s).0 ≢ Claim.claimed
  unfolding claim claim_swept
  held-not_granted now s h young g =
      let swept = sweep-Holds now s h young in let q = rw swept.there at g in ground arith

  granted-Holds :
      (s : Memory)
      → s.ttl ≡ ttl
      → (claim key t s).0 ≡ Claim.claimed
      → Holds key t ttl (claim key t s).1
  unfolding claim claim_swept sweep
  granted-Holds s window g = elim (Option-cases (get key (sweep t s).seen)) [
    | inl unseen ↦ rw unseen (record {
      held = record { claimed_at = t; confirmed = false };
      since = refl;
      there = ground (
        arith,
        get-put key key (record { claimed_at = t; confirmed = false }) (sweep t s).seen,
        eq_iff key key,
      );
      window = window;
    })
    | inr (found, e) ↦ let q = rw e at g in ground arith
  ]

-- Once a key is claimed, and as long as its window lasts and nobody forgets it, no other claim of it
-- is granted, whatever requests are made of the store in between, in whatever order.
pub claim_once :
    (key : String) (t now : Instant) (rs : List Request) (s : Memory)
    → (claim key t s).0 ≡ Claim.claimed
    → AllLeave key t s.ttl rs
    → (now -ℤ s.ttl) <ℤ t
    → (claim key now (after_requests rs (claim key t s).1)).0 ≢ Claim.claimed
claim_once key t now rs s g l young =
    held-not_granted key t s.ttl now (after_requests rs (claim key t s).1)
      (requests-Holds key t s.ttl rs (claim key t s).1 (granted-Holds key t s.ttl s refl g) l) young

get-sweep_seen_unseen :
    (cutoff : Instant) (key : String) (d : Dict Held)
    → get key d ≡ none
    → get key (sweep_seen cutoff d) ≡ none
unfolding get sweep_seen
get-sweep_seen_unseen cutoff key [] e = refl
get-sweep_seen_unseen cutoff key ((k, held) ∷ d) e =
    ground (arith, get-sweep_seen_unseen cutoff key d)

-- A key that is forgotten can be claimed again.
pub forget-grants :
    (key : String) (now : Instant) (s : Memory) → (claim key now (forget key s)).0 ≡ Claim.claimed
unfolding claim claim_swept sweep forget
forget-grants key now s =
    let unseen =
      get-sweep_seen_unseen (now -ℤ s.ttl) key (pop key s.seen)
        (get-pop key key s.seen ∙ ground (arith, eq_iff key key)) in
    rw unseen

-- What a claim says of a key that the store holds, claimed within the window.
claim-held :
    (key : String) (now : Instant) (s : Memory) (held : Held)
    → get key s.seen ≡ some held
    → (now -ℤ s.ttl) <ℤ held.claimed_at
    → (claim key now s).0 ≡ told (some held)
unfolding claim claim_swept sweep
claim-held key now s held e young = rw (get-sweep_seen_young (now -ℤ s.ttl) key held s.seen e young)

confirmed-get :
    (key : String) (s : Memory) (held : Held)
    → get key s.seen ≡ some held
    → (get key (confirm key s).seen ≡ some (record held { confirmed = true }))
      × ((confirm key s).ttl ≡ s.ttl)
unfolding confirm confirm_held
confirmed-get key s held e = rw e (
  get-put key key (record held { confirmed = true }) s.seen ∙ ground (arith, eq_iff key key),
  refl,
)

-- A key that is claimed and then confirmed is a duplicate while its window lasts.
pub confirm-answers :
    (key : String) (t now : Instant) (s : Memory)
    → (claim key t s).0 ≡ Claim.claimed
    → (now -ℤ s.ttl) <ℤ t
    → (claim key now (confirm key (claim key t s).1)).0 ≡ Claim.duplicate
confirm-answers key t now s g young =
    let h = granted-Holds key t s.ttl s refl g in
    let (there, ttl) = confirmed-get key (claim key t s).1 h.held h.there in
    claim-held key now (confirm key (claim key t s).1) (record h.held { confirmed = true }) there
      (rw (ttl, h.window, h.since) young)
