-- ===== src/Patterns/RequestReply/Matched.antt =====
-- patterns/requestreply.py: each reply reaches the `ask` that it answers, and no other.
use acemq_python_amqp.Prelude.{
  ℕ, ◌+◌, ◌≡◌, ◌⊎◌, inl, inr, refl, arith, String, Bool, true, false, Option, some, none, [], ◌∷◌,
  eq_iff,
}
use acemq_python_amqp.Dict.{Dict, get, put, pop, get-put, get-pop}
use acemq_python_amqp.Patterns.RequestReply.Requester.{
  Reply, Future, pending, expired, shut, dropped, resolved, Requester, nobody_waits, begin_ask,
  receive_at, receive, Waited, replied, ran_out, closed_under, broke, end_ask, shut_one, shut_all,
  close,
}

-- How an `ask` can end, by its future.
abbrev pub Fits : Future → Waited → Type 0
Fits f (replied reply) = f ≡ resolved reply
Fits f closed_under = f ≡ shut
Fits f ran_out = Unit {0}
Fits f (broke fault) = Unit {0}

-- An `ask` begins under a new correlation; a reply comes, for whatever correlation; `wait_for` gives
-- up; an `ask` ends; the requester is closed.
pub data Step (s : Requester) : Requester → Type 0 where
  asks : (c : String) → get c s.futures ≡ none → {t : Requester} → t ≡ begin_ask c s → Step s t
  hears : (reply : Reply) → {t : Requester} → t ≡ (receive reply s).1 → Step s t
  gives_up :
      (c : String)
      → get c s.futures ≡ some pending
      → {t : Requester} → t ≡ record s { futures = put c expired s.futures }
      → Step s t
  ends :
      (c : String) (f : Future) (waited : Waited)
      → get c s.futures ≡ some f
      → Fits f waited
      → {t : Requester} → t ≡ end_ask c waited s
      → Step s t
  closes : {t : Requester} → t ≡ close s → Step s t

pub data Reach : Requester → Type 0 where
  start : Reach nobody_waits
  then_steps : {s t : Requester} → Reach s → Step s t → Reach t

abbrev pub is_there : Option (Unit {0}) → Bool
is_there none = false
is_there (some here) = true

-- A future whose `ask` still waits.
abbrev pub is_live : Option Future → Bool
is_live (some pending) = true
is_live (some expired) = true
is_live _ = false

record IsSound (s : Requester) : Type 0 where
  own :
      (c : String) (reply : Reply)
      → get c s.futures ≡ some (resolved reply)
      → reply.envelope.correlation_id ≡ c
  live : (c : String) → is_there (get c s.waiting) ≡ true → is_live (get c s.futures) ≡ true

begin_ask-IsSound :
    (c : String) (s : Requester) → get c s.futures ≡ none → IsSound s → IsSound (begin_ask c s)
unfolding begin_ask
begin_ask-IsSound c s new sound = record {
  own = λ k reply e. ground (arith, get-put c k pending s.futures, sound.own k reply);
  live =
      λ k w. ground (arith, get-put c k pending s.futures, get-put c k tt s.waiting, sound.live k);
}

gives_up-IsSound :
    (c : String) (s : Requester)
    → get c s.futures ≡ some pending
    → IsSound s
    → IsSound (record s { futures = put c expired s.futures })
gives_up-IsSound c s waits sound = record {
  own = λ k reply e. ground (arith, get-put c k expired s.futures, sound.own k reply);
  live = λ k w. ground (arith, get-put c k expired s.futures, sound.live k);
}

end_ask-IsSound :
    (c : String) (waited : Waited) (s : Requester) → IsSound s → IsSound (end_ask c waited s)
unfolding end_ask
end_ask-IsSound c waited s sound = record {
  own = λ k reply e. ground (arith, get-put c k dropped s.futures, sound.own k reply);
  live = λ k w. ground (arith, get-put c k dropped s.futures, get-pop c k s.waiting, sound.live k);
}

-- A reply under the correlation of a future that pends, or not.
matched-IsSound :
    (reply : Reply) (s : Requester)
    → IsSound s
    → IsSound (record s {
      waiting = pop reply.envelope.correlation_id s.waiting;
      futures = put reply.envelope.correlation_id (resolved reply) s.futures;
    })
matched-IsSound reply s sound =
    let c = reply.envelope.correlation_id in
    record {
      own = λ k r e.
          ground (arith, get-put c k (resolved reply) s.futures, sound.own k r, eq_iff k c);
      live = λ k w.
          ground
            (arith, get-put c k (resolved reply) s.futures, get-pop c k s.waiting, sound.live k);
    }

unmatched-IsSound :
    (c : String) (n : ℕ) (s : Requester)
    → IsSound s
    → IsSound (record s { waiting = pop c s.waiting; unmatched = n })
unmatched-IsSound c n s sound = record {
  own = sound.own;
  live = λ k w. ground (arith, get-pop c k s.waiting, sound.live k);
}

receive_at-IsSound :
    (here : Option (Unit {0})) (future : Option Future) (reply : Reply) (s : Requester)
    → IsSound s
    → IsSound (
        receive_at here future reply
          (record s { waiting = pop reply.envelope.correlation_id s.waiting }))
unfolding receive_at
receive_at-IsSound (some tt) (some pending) reply s sound = matched-IsSound reply s sound
receive_at-IsSound (some tt) (some expired) reply s sound =
    unmatched-IsSound reply.envelope.correlation_id (s.unmatched + 1) s sound
receive_at-IsSound (some tt) (some shut) reply s sound =
    unmatched-IsSound reply.envelope.correlation_id (s.unmatched + 1) s sound
receive_at-IsSound (some tt) (some dropped) reply s sound =
    unmatched-IsSound reply.envelope.correlation_id (s.unmatched + 1) s sound
receive_at-IsSound (some tt) (some (resolved other)) reply s sound =
    unmatched-IsSound reply.envelope.correlation_id (s.unmatched + 1) s sound
receive_at-IsSound (some tt) none reply s sound =
    unmatched-IsSound reply.envelope.correlation_id (s.unmatched + 1) s sound
receive_at-IsSound none future reply s sound =
    unmatched-IsSound reply.envelope.correlation_id (s.unmatched + 1) s sound

-- Closing resolves no future.
shut_one-resolved :
    (f : Option Future) (c k : String) (reply : Reply) (futures : Dict Future)
    → get k (shut_one f c futures) ≡ some (resolved reply)
    → get k futures ≡ some (resolved reply)
unfolding shut_one
shut_one-resolved (some pending) c k reply futures e = ground (arith, get-put c k shut futures)
shut_one-resolved (some expired) c k reply futures e = e
shut_one-resolved (some shut) c k reply futures e = e
shut_one-resolved (some dropped) c k reply futures e = e
shut_one-resolved (some (resolved other)) c k reply futures e = e
shut_one-resolved none c k reply futures e = e

shut_all-resolved :
    (waiting : Dict Unit) (k : String) (reply : Reply) (futures : Dict Future)
    → get k (shut_all waiting futures) ≡ some (resolved reply)
    → get k futures ≡ some (resolved reply)
unfolding shut_all
shut_all-resolved [] k reply futures e = e
shut_all-resolved ((c, here) ∷ rest) k reply futures e =
    shut_one-resolved (get c futures) c k reply futures
      (shut_all-resolved rest k reply (shut_one (get c futures) c futures) e)

Step-IsSound : {s t : Requester} → Step s t → IsSound s → IsSound t
unfolding receive close get
Step-IsSound {s} (asks c new e) sound = rw e (begin_ask-IsSound c s new sound)
Step-IsSound {s} (hears reply e) sound =
    let key = reply.envelope.correlation_id in
    rw e (receive_at-IsSound (get key s.waiting) (get key s.futures) reply s sound)
Step-IsSound {s} (gives_up c waits e) sound = rw e (gives_up-IsSound c s waits sound)
Step-IsSound {s} (ends c f waited there fits e) sound = rw e (end_ask-IsSound c waited s sound)
Step-IsSound {s} (closes e) sound = rw e (record {
  own = λ k reply h. sound.own k reply (shut_all-resolved s.waiting k reply s.futures h);
  live = λ k w. absurd (ground arith);
})

Reach-IsSound : {s : Requester} → Reach s → IsSound s
unfolding get
Reach-IsSound start = record {
  own = λ c reply e. absurd (ground arith);
  live = λ c w. absurd (ground arith);
}
Reach-IsSound (then_steps r st) = Step-IsSound st (Reach-IsSound r)

gone :
    (reply : Reply) (s : Requester)
    → get reply.envelope.correlation_id (pop reply.envelope.correlation_id s.waiting) ≡ none
gone reply s =
    let key = reply.envelope.correlation_id in
    ground (arith, get-pop key key s.waiting, eq_iff key key)

-- What one reply does, given the entry and the future under its correlation.
received :
    (here : Option (Unit {0})) (future : Option Future) (reply : Reply) (s : Requester)
    → let key = reply.envelope.correlation_id in
      let t = receive_at here future reply (record s { waiting = pop key s.waiting }) in
      (get key t.waiting ≡ none)
      × (((future ≡ some pending)
            × (t.futures ≡ put key (resolved reply) s.futures)
            × (t.unmatched ≡ s.unmatched))
          ⊎ ((t.futures ≡ s.futures) × (t.unmatched ≡ s.unmatched + 1)))
unfolding receive_at
received (some tt) (some pending) reply s = (gone reply s, inl (refl, refl, refl))
received (some tt) (some expired) reply s = (gone reply s, inr (refl, refl))
received (some tt) (some shut) reply s = (gone reply s, inr (refl, refl))
received (some tt) (some dropped) reply s = (gone reply s, inr (refl, refl))
received (some tt) (some (resolved other)) reply s = (gone reply s, inr (refl, refl))
received (some tt) none reply s = (gone reply s, inr (refl, refl))
received none future reply s = (gone reply s, inr (refl, refl))

-- However asks, replies, timeouts and a close interleave: a future is resolved only by a reply with
-- its own correlation, so no `ask` returns another's answer; the table holds only asks that still
-- wait, so none that is over leaves an entry; and a reply that comes either resolves the future that
-- waits under its correlation, leaving `unmatched` as it was, or changes no future and raises
-- `unmatched` by one, and in both cases no entry is left that a second copy of it could match.
pub replies_matched :
    (s : Requester) (c : String) (old reply : Reply)
    → Reach s
    → let key = reply.envelope.correlation_id in
      let t = (receive reply s).1 in
      (get c s.futures ≡ some (resolved old) → old.envelope.correlation_id ≡ c)
      × (is_there (get c s.waiting) ≡ true → is_live (get c s.futures) ≡ true)
      × (get key t.waiting ≡ none)
      × (((get key s.futures ≡ some pending)
            × (t.futures ≡ put key (resolved reply) s.futures)
            × (t.unmatched ≡ s.unmatched))
          ⊎ ((t.futures ≡ s.futures) × (t.unmatched ≡ s.unmatched + 1)))
unfolding receive
replies_matched s c old reply r =
    let sound = Reach-IsSound r in
    let key = reply.envelope.correlation_id in
    let after = received (get key s.waiting) (get key s.futures) reply s in
    (sound.own c old, sound.live c, after.0, after.1)
