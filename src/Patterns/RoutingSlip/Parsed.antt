-- ===== src/Patterns/RoutingSlip/Parsed.antt =====
-- patterns/routingslip.py: a slip written as JSON, onto an envelope and read back.
use acemq_python_amqp.Prelude.{
  ◌≡◌, refl, String, false, Bool-cases, inl, inr, some, List, [], ◌∷◌, arith, ok, str_eq, eq_iff,
}
use acemq_python_amqp.Dict.{Dict, get, put, get-put}
use acemq_python_amqp.Headers.{HeaderValue, Interpreter, is_reserved, text as text_header}
use acemq_python_amqp.Envelope.{Envelope, any_reserved, filled, post_init}
use acemq_python_amqp.Patterns.RoutingSlip.Json.{field_of, text_or_empty}
use acemq_python_amqp.Patterns.RoutingSlip.Slip.{
  slip_header, SlipForm, Step, RoutingSlip, put_field, to_json, items_of, slip_object, to_header,
  onto_as, onto,
}
use acemq_python_amqp.Patterns.RoutingSlip.Reading.{
  SlipText, from_json, cons_step, steps_of, slip_of, read_steps, read_json, from_text, read_slip,
  slip_from,
}

put_clean :
    (v : HeaderValue) (d : Dict HeaderValue)
    → any_reserved d ≡ false
    → any_reserved (put slip_header v d) ≡ false
unfolding any_reserved put is_reserved
put_clean v [] clean = refl
put_clean v ((k, w) ∷ d) clean = ground (arith, put_clean v d)

module _ (py : Interpreter) (st : SlipText) where
  from_json-to_json : (s : Step) → from_json py st (to_json s) ≡ some s
  unfolding from_json to_json put_field field_of text_or_empty
  from_json-to_json s = elim (Bool-cases (str_eq s.name "")) [
    | inl e ↦ elim (Bool-cases (str_eq s.completed_at "")) [
      | inl d ↦ rw (e, d) (ground (arith, (eq_iff s.name "").0 e, (eq_iff s.completed_at "").0 d))
      | inr d ↦ rw (e, d) (ground (arith, (eq_iff s.name "").0 e))
    ]
    | inr e ↦ elim (Bool-cases (str_eq s.completed_at "")) [
      | inl d ↦ rw (e, d) (ground (arith, (eq_iff s.completed_at "").0 d))
      | inr d ↦ rw (e, d) refl
    ]
  ]

  steps_of-items_of : (ss : List Step) → steps_of py st (items_of ss) ≡ some ss
  unfolding steps_of items_of
  steps_of-items_of [] = refl
  steps_of-items_of (s ∷ ss) = λ i. cons_step py st (from_json-to_json s i) (steps_of-items_of ss i)

  read-slip_object :
      (slip : RoutingSlip)
      → read_json py st (some (slip_object slip))
        ≡ some (record slip { run_id = ""; form = SlipForm.json })
  unfolding read_json read_steps slip_object field_of
  read-slip_object slip =
      λ i. slip_of py st (steps_of-items_of slip.steps i) (steps_of-items_of slip.done i)

  -- A slip written as JSON, onto an envelope without reserved headers, is read back from it with the
  -- steps to do and those done, each with its exchange, routing key, name and completion, in order; a
  -- run identifier is not written. The hypothesis is that `json.loads` reads what `json.dumps` wrote.
  pub slip_from-onto :
      (fresh pipeline : String) (slip : RoutingSlip) (e : Envelope)
      → slip.form ≡ SlipForm.json
      → st.json.loads (st.json.dumps (slip_object slip)) ≡ some (slip_object slip)
      → any_reserved e.headers ≡ false
      → (e' : Envelope) × (onto st.json fresh slip e ≡ ok e')
        × (slip_from py st e' pipeline ≡ ok (some (record slip { run_id = "" })))
  unfolding onto onto_as post_init filled slip_from read_slip from_text to_header
  slip_from-onto fresh pipeline slip e form back clean =
      let written = to_header st.json slip in
      let left : Envelope =
        filled (record e { headers = put slip_header (text_header written) e.headers }) in
      let found : get slip_header left.headers ≡ some (text_header written) =
        get-put slip_header slip_header (text_header written) e.headers in
      (
        left,
        rw (form, put_clean (text_header written) e.headers clean) refl,
        rw (found, back, read-slip_object slip, form) refl,
      )
