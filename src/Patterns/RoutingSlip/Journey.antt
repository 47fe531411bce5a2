-- ===== src/Patterns/RoutingSlip/Journey.antt =====
-- patterns/routingslip.py: a message on a declared route visits every step of it, in order, and then
-- its run ends.
use acemq_python_amqp.Prelude.{
  ◌≡◌, refl, ◌∙◌, String, Bool, false, not, some, none, List, [], ◌∷◌, ◌++◌, map, arith,
  append_assoc, length, ok, str_eq,
}
use mathlib.Core.Path.{subst}
use acemq_python_amqp.Ack.Answers as answers
use acemq_python_amqp.Consumer.Effects.{Outbound, Message}
use acemq_python_amqp.Publisher.Outstanding.{PublishResult}
use acemq_python_amqp.Publisher.Sending.{PublishEvent, handed_over, send}
use acemq_python_amqp.Dict.{Dict, get, keep_keys, get-keep_keys}
use acemq_python_amqp.Headers.{HeaderValue}
use acemq_python_amqp.Envelope.{Envelope, any_reserved, filled, post_init}
use acemq_python_amqp.Patterns.RoutingSlip.Texts.{comma_join, Plain}
use acemq_python_amqp.Patterns.RoutingSlip.Slip.{
  slip_header, Step, bare_step, RoutingSlip, next_of, next_step, advance, advance_by, onto, run_or,
}
use acemq_python_amqp.Patterns.RoutingSlip.Reading.{slip_from}
use acemq_python_amqp.Patterns.RoutingSlip.Declared.{
  OnRoute-append, bare-OnRoute, route_slip, Routed, declared_lem, onto-Routed,
}
use acemq_python_amqp.Patterns.RoutingSlip.Travel.{
  World, Run, completed, Follower, in_form, next_envelope, write_on, bound_for, travel,
  after_reading, with_slip, after_step, go_on, hop_on, after_hop, record_run,
}
use acemq_python_amqp.Patterns.RoutingSlip.Publishing.{Unhindered, send_out}

still_clean :
    (keep : String → Bool) (d : Dict HeaderValue)
    → any_reserved d ≡ false
    → any_reserved (keep_keys keep d) ≡ false
unfolding any_reserved keep_keys
still_clean keep [] clean = refl
still_clean keep ((k, v) ∷ d) clean = ground (arith, still_clean keep d)

module _ {W P : Type 0} (f : Follower W P) (w : World W) where
  run_kept : (run : String) → str_eq run "" ≡ false → run_or run (f.fresh_run w) ≡ run
  run_kept run named = rw named

  write_lem :
      (advanced : RoutingSlip) (e : Envelope)
      → f.form ≡ none
      → any_reserved (next_envelope (f.fresh_id w) f.publisher.origin e).headers ≡ false
      → write_on f advanced e w
        ≡ onto f.texts.json
            (f.fresh_run w)
            advanced
            (filled (next_envelope (f.fresh_id w) f.publisher.origin e))
  unfolding write_on in_form post_init
  write_lem advanced e form clean = rw (form, clean) refl

  -- The hop from one step to the next.
  write_on-Routed :
      (run : String) (before : List String) (here next : String) (after : List String)
      (e : Envelope)
      → f.form ≡ none
      → Plain f.texts.is_space (before ++ (here ∷ next ∷ after))
      → Routed (comma_join (before ++ (here ∷ next ∷ after))) run (length before) e
      → str_eq run "" ≡ false
      → let slip = route_slip f.pipeline run before (here ∷ next ∷ after) in
        (e' : Envelope) × (write_on f (advance (f.isoformat w) slip) e w ≡ ok e')
        × Routed
            (comma_join ((before ++ (here ∷ [])) ++ (next ∷ after)))
            run
            (length (before ++ (here ∷ [])))
            e'
  unfolding advance next_envelope filled
  write_on-Routed run before here next after e form plain routed named =
      let keep : String → Bool = λ name. not (str_eq name slip_header) in
      let base = filled (next_envelope (f.fresh_id w) f.publisher.origin e) in
      let advanced =
        advance (f.isoformat w) (route_slip f.pipeline run before (here ∷ next ∷ after)) in
      let clean : any_reserved base.headers ≡ false =
        still_clean keep e.headers routed.application in
      let free : get slip_header base.headers ≡ none = get-keep_keys keep slip_header e.headers in
      let onward =
        onto-Routed f.texts.json f.texts.is_space f.pipeline (f.fresh_run w) advanced
          (before ++ (here ∷ [])) next after base refl
          (OnRoute-append f.pipeline before (here ∷ []) (map (λ n. bare_step f.pipeline n n) before)
            _ (bare-OnRoute f.pipeline before) (refl, refl, refl, tt))
          (bare-OnRoute f.pipeline (next ∷ after))
          (rw (append_assoc before (here ∷ []) (next ∷ after)) plain) clean free in
      (
        onward.0,
        write_lem advanced e form clean ∙ onward.1,
        subst
            (λ r.
              Routed (comma_join ((before ++ (here ∷ [])) ++ (next ∷ after))) r
                (length (before ++ (here ∷ []))) onward.0)
            (run_kept run named) onward.2,
      )

module _ {W P : Type 0} (f : Follower W P) where
  -- The message that is delivered to the next step: what the publisher was given.
  abbrev pub arriving : Message P → P → Envelope → String → Message P
  arriving m payload e key = record m { payload = payload; envelope = e; routing_key = key }

  -- The way of a message through the followers of a pipeline: `travel` accepts it and its run is
  -- complete; or `travel` accepts it, having handed its next message over under a routing key, and that
  -- message is delivered to the next follower. The routing keys are those of the messages handed over.
  pub data Travels : World W → Message P → List String → World W → Type 0 where
    ends :
        {w w' : World W} {m : Message P} (run : Run)
        → travel f m w ≡ (ok answers.accept, w')
        → run.outcome ≡ completed
        → w'.runs ≡ run ∷ w.runs
        → w'.sent ≡ w.sent
        → Travels w m [] w'
    hops :
        {w w' w'' : World W} {m : Message P} {keys : List String} (exchange key : String)
        (out : Outbound) (more : List PublishEvent) (onwards : Step) (payload : P)
        (outgoing : Envelope) (result : PublishResult)
        → travel f m w ≡ (ok answers.accept, w')
        → w'.runs ≡ w.runs
        → w'.sent ≡ more ++ (handed_over exchange key out ∷ w.sent)
        → send (bound_for f.publisher onwards) payload (some outgoing) none "" w.sent
          ≡ (ok result, w'.sent)
        → Travels w' (arriving m payload outgoing key) keys w''
        → Travels w m (key ∷ keys) w''

  module _ (form : f.form ≡ none) (free : Unhindered f.publisher)
      (works : (m : Message P) (own : W)
        → (payload : P) × (own' : W) × (f.step m own ≡ (ok (some payload), own'))) where
    travel_end :
        (m : Message P) (w : World W) (here : Step) (slip : RoutingSlip)
        → slip_from f.py f.texts m.envelope f.pipeline ≡ ok (some slip)
        → slip.steps ≡ here ∷ []
        → (w' : World W) × Travels w m [] w'
    unfolding travel after_reading with_slip after_step go_on next_step next_of advance advance_by
        record_run
    travel_end m w here slip read last =
        let (payload, own', stepped) = works m w.own in
        let w₁ : World W = record w { own = own' } in
        (
          record_run f (some here) completed w₁,
          ends _ (rw read (rw stepped (rw (last) refl))) refl refl refl,
        )

    free_for : (s : Step) → Unhindered (bound_for f.publisher s)
    free_for s = record { plain = free.plain; encodes = free.encodes; arrives = free.arrives }

    -- From any step of a declared route, the message goes to all the later ones, in their order, and
    -- then its run is complete.
    pub travels_from :
        (run : String) (before : List String) (here : String) (after : List String) (m : Message P)
        (w : World W)
        → str_eq run "" ≡ false
        → Plain f.texts.is_space (before ++ (here ∷ after))
        → Routed (comma_join (before ++ (here ∷ after))) run (length before) m.envelope
        → (w' : World W) × Travels w m after w'
    unfolding travel after_reading with_slip after_step go_on hop_on after_hop next_step next_of
        advance advance_by
    travels_from run before here [] m w named plain routed =
        travel_end m w (bare_step f.pipeline here here)
          (route_slip f.pipeline run before (here ∷ []))
          (declared_lem f.py f.texts f.pipeline run before here [] m.envelope plain routed) refl
    travels_from run before here (next ∷ after) m w named plain routed =
        let (payload, own', stepped) = works m w.own in
        let w₁ : World W = record w { own = own' } in
        let onwards = bare_step f.pipeline next next in
        let read =
          declared_lem f.py f.texts f.pipeline run before here (next ∷ after) m.envelope plain
            routed in
        let (e', written, routed') =
          write_on-Routed f w₁ run before here next after m.envelope form plain routed named in
        let (out, more, result, sent) =
          send_out (bound_for f.publisher onwards) (free_for onwards) payload e' w.sent
            routed'.application in
        let w₂ : World W = record w₁ {
          sent = more ++ (handed_over onwards.exchange next out ∷ w.sent);
        } in
        let rest =
          travels_from run (before ++ (here ∷ [])) next after (arriving m payload e' next) w₂ named
            (rw (append_assoc before (here ∷ []) (next ∷ after)) plain) routed' in
        (
          rest.0,
          hops onwards.exchange next out more onwards payload e' result
              (rw read (rw stepped (rw written (rw sent refl)))) refl refl sent rest.1,
        )
