-- ===== src/Hidpp20/Device/Requests.antt =====
-- The requests of src/logid/backend/hidpp20/Device.cpp: how parameters choose the report size, and
-- how a request meets its response.
use logiops.Prelude.{
  ℕ, ◌+◌, ◌*◌, ◌/◌, ◌<◌, ◌≤◌, ◌≡◌, refl, ap, ◌∙◌, ◌≢◌, ◌⊎◌, inl, inr, true, false, Option-cases,
  set-set, none, some, List, bit_and, bit_or, get_or, set, take, length, length-set,
  get_or-set_self, All, dec_le, leb, get_or-of_take, arith,
}
use logiops.Prelude.Bits.{nibble_lo, or_nibbles}
use logiops.Prelude.Exn.{Result, ok, err, ◌>>=◌, assertion_failed}
use logiops.Hidpp.Defs.{short, long, software_id, no_ack_software_id}
use logiops.Hidpp.Report.{
  Report, IsValid, IsByte, size_of, Hidpp20Error, make_feature, device_index, feature, address,
  function, sw_id, type_of, params, is_error20, set_sw_id, write_params,
}
use logiops.Hidpp.Report.Errors.{is_error20-request}
use logiops.Hidpp.Report.Fields.{make_feature-fields, address_halves, set_halves}
use logiops.Hidpp.Report.Update.{setters-IsValid, write_params-IsValid}
use logiops.Hidpp.Report.Build.{make_feature-Builds}
use logiops.Hidpp20.Device.Steps.{start_lem}
use logiops.Hidpp20.Device.{
  Response, report, error20, ResponseSlot, free, index_of, slot_of, start, finish, respond, outcome,
  read_response, build_request, no_ack,
}

-- The address of an error's request, put together from its two halves.
error_address :
    (e : Hidpp20Error) (b : ℕ)
    → e.function * 16 + e.software_id ≡ b
    → e.software_id < 16
    → bit_or (e.function * 16) (bit_and e.software_id 0x0f) ≡ b
error_address e b h k =
    omega (arith, nibble_lo e.software_id, or_nibbles e.function (bit_and e.software_id 0x0f))

-- A report answers what it names: itself, under its own feature and address, or the error that it
-- carries, under the feature and the address byte of the failed request.
pub read_response_lem :
    (r : Report)
    → IsValid r
    → ((is_error20 r ≡ none) × (read_response r ≡ (feature r, address r, report r)))
      ⊎ ((e : Hidpp20Error) × (is_error20 r ≡ some e)
          × (read_response r ≡ (address r, get_or r.bytes 4 0, error20 e)))
unfolding read_response
read_response_lem r h = elim (Option-cases (is_error20 r)) [
  | inl n ↦ inl (n, rw (n, read_response))
  | inr (e, q) ↦
      let w = is_error20-request r e h q in
      inr (
        e,
        q,
        rw (q, read_response)
            (λ j. (w.3 j, error_address e (get_or r.bytes 4 0) w.4 w.5 j, error20 e)),
      )
]

respond_hit :
    (received : Report) (f a : ℕ) (x : Response) (slots : List ResponseSlot)
    → read_response received ≡ (f, a, x)
    → (slot_of slots f).feature ≡ some f
    → (slot_of slots f).address ≡ some a
    → respond received slots
      ≡ (set slots (index_of f) (record (slot_of slots f) { response = some x }), true)
unfolding respond
respond_hit received f a x slots q ef ea = rw q (ground arith)

finish_hit :
    (r : Report) (x : Response) (slots : List ResponseSlot)
    → (slot_of slots (feature r)).response ≡ some x
    → finish r slots ≡ some (outcome x, set slots (index_of (feature r)) free)
unfolding finish
finish_hit r x slots e = rw (e, finish)

-- A request that got a slot, followed by a report under the same feature and address, is answered
-- by that report and gives the slot back; the report is consumed.
pub start-respond-finish :
    (r received : Report) (a : ℕ) (x : Response) (slots slots' : List ResponseSlot)
    → length slots ≡ 16
    → start (ok tt) r slots ≡ some (ok tt, slots')
    → read_response received ≡ (feature r, a, x)
    → a ≡ address r
    → ((respond received slots').1 ≡ true)
      × (finish r (respond received slots').0
          ≡ some (outcome x, set slots (index_of (feature r)) free))
start-respond-finish r received a x slots slots' n e q ea =
    let i = index_of (feature r) in
    let claimed : ResponseSlot = record (slot_of slots (feature r)) {
      feature = some (feature r);
      address = some (address r);
    } in
    let here : get_or (set slots i claimed) i free ≡ claimed =
      get_or-set_self slots i claimed free (omega (arith, n)) in
    let hit =
      respond_hit received (feature r) a x (set slots i claimed) q (rw here refl)
        (rw (here, ea) refl) in
    let answered : ResponseSlot = record (slot_of (set slots i claimed) (feature r)) {
      response = some x;
    } in
    let wide : i < length (set slots i claimed) = omega (arith, length-set slots i claimed, n) in
    rw ((start_lem (ok tt) r slots slots' e).1, hit)
      (
        refl,
        finish_hit r x (set (set slots i claimed) i answered) (
              ap (λ (t : ResponseSlot). t.response)
                (get_or-set_self (set slots i claimed) i answered free wide))
            ∙ ap (λ t. some (outcome x, t))
                (set-set (set slots i claimed) i answered free ∙ set-set slots i claimed free),
      )

-- `sendReportNoACK` sends the request under another software id: its function is kept, and its
-- address is never that of a request of `callFunction`, so no reply to it can be taken for an answer.
pub no_ack-address :
    (r q : Report)
    → IsValid r
    → IsValid q
    → sw_id q ≡ software_id
    → (function (no_ack r) ≡ function r)
      × (sw_id (no_ack r) ≡ no_ack_software_id)
      × (address (no_ack r) ≢ address q)
unfolding no_ack
no_ack-address r q h k e =
    let w = set_halves 3 r h in
    let sent = address_halves (set_sw_id 3 r) (setters-IsValid r 3 (omega arith) h).4 in
    (w.3, w.2, λ same. absurd (omega (arith, w.2, sent, address_halves q k)))

-- What a request is: valid, of the type, for the device, the feature and the function, with software
-- id 2, and with the parameters in front.
abbrev pub IsRequest : Result Report → ℕ → ℕ → ℕ → ℕ → List ℕ → Type 0
IsRequest result t d i f ps =
    (r : Report) × (result ≡ ok r)
    × IsValid r
    × (type_of r ≡ t)
    × (device_index r ≡ d)
    × (feature r ≡ i)
    × (function r ≡ f)
    × (sw_id r ≡ software_id)
    × (take (length ps) (params r) ≡ ps)

sized_request :
    (t d i f : ℕ) (ps : List ℕ)
    → d < 256
    → i < 256
    → f < 16
    → All IsByte ps
    → (t ≡ short) ⊎ (t ≡ long)
    → length ps + 4 ≤ size_of t
    → IsRequest
        (do
          request ← make_feature t d i f software_id
          ok (record { bytes = write_params ps request.bytes }))
        t
        d
        i
        f
        ps
unfolding type_of device_index feature function sw_id
sized_request t d i f ps hd hi hf hp typed fits =
    elim (make_feature-Builds t d i f 2 hd hi hf (omega arith)) [
      | inr (m, n, e) ↦ elim typed [ inl a ↦ absurd (m a) | inr a ↦ absurd (n a) ]
      | inl (r, e, valid, ty, dv, sub, ad, par) ↦
          let w = write_params-IsValid ps r hp valid (omega (arith, valid.sized, ap size_of ty)) in
          let kept =
            λ (k : ℕ) (h : k < 4). get_or-of_take 4 k (write_params ps r.bytes) r.bytes 0 w.2 h in
          let fields = make_feature-fields t d i f 2 r hf (omega arith) e in
          (
            record { bytes = write_params ps r.bytes },
            rw e,
            w.0,
            kept 0 (omega arith) ∙ ty,
            kept 1 (omega arith) ∙ dv,
            kept 2 (omega arith) ∙ fields.2,
            ap (λ (b : ℕ). bit_and (b / 16) 15) (kept 3 (omega arith)) ∙ fields.0,
            ap (λ (b : ℕ). bit_and b 15) (kept 3 (omega arith)) ∙ fields.1,
            w.1,
          )
    ]

-- Up to 16 parameters make a request: it is short for at most 3, and long for more; it is valid, it
-- names the device, the feature, the function and software id 2, and its parameters begin with those
-- given. More than 16 fail the assertion.
pub build_request_lem :
    (d i f : ℕ) (ps : List ℕ)
    → d < 256
    → i < 256
    → f < 16
    → All IsByte ps
    → ((length ps ≤ 3) × IsRequest (build_request d i f ps) short d i f ps)
      ⊎ ((3 < length ps) × (length ps ≤ 16) × IsRequest (build_request d i f ps) long d i f ps)
      ⊎ ((16 < length ps) × (build_request d i f ps ≡ err assertion_failed))
unfolding build_request
build_request_lem d i f ps hd hi hf hp = elim (dec_le (length ps) 3) [
  | yes small ↦
      let e : leb (length ps) 3 ≡ true = ground arith in
      let e16 : leb (length ps) 16 ≡ true = ground arith in
      inl (small, rw (e16, e) (sized_request short d i f ps hd hi hf hp (inl refl) (omega arith)))
  | no large ↦ elim (dec_le (length ps) 16) [
    | yes fits ↦
        let e : leb (length ps) 3 ≡ false = ground arith in
        let e16 : leb (length ps) 16 ≡ true = ground arith in
        inr (
          inl (
            omega arith,
            fits,
            rw (e16, e) (sized_request long d i f ps hd hi hf hp (inr refl) (omega arith)),
          ))
    | no over ↦ inr (inr (omega arith, ground arith))
  ]
]
