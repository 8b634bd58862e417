-- ===== src/Hidpp10/Receiver/Pairing.antt =====
-- How the address of a discovered device (src/logid/backend/hidpp10/Receiver.cpp) gets into the
-- request to pair it, and how the notification flags are written and read.
use logiops.Prelude.{
  ℕ, ◌+◌, ◌*◌, ◌/◌, ◌^◌, ◌<◌, ◌≡◌, refl, ap, ◌∙◌, true, false, [], ◌∷◌, take, drop, bit_or, get_or,
  All, All-drop, All-get_or, Bool, arith,
}
use logiops.Prelude.Bits.{bit_or-shift, bit_or_comm, byte_lo}
use logiops.Prelude.Exn.{ok}
use logiops.Prelude.Bytes.{byte_at}
use logiops.Hidpp.Report.{Report, IsByte, IsValid, params, sub_id, address}
use logiops.Hidpp10.Defs.{device_discovered}
use logiops.Hidpp10.Receiver.{DeviceDiscoveryEvent, or_address, fill_device_discovery_event}
use logiops.Hidpp10.Receiver.Registers.{
  NotificationFlags, flag_bytes, read_flags, address_bytes, bolt_pairing_bytes,
}

flag_bytes_cases :
    (b w s : Bool)
    → let flags : NotificationFlags = record {
      device_battery_status = b;
      receiver_wireless_notifications = w;
      receiver_software_present = s;
    } in
      read_flags (flag_bytes flags) ≡ ok flags
unfolding read_flags flag_bytes byte_at
flag_bytes_cases true true true = refl
flag_bytes_cases true true false = refl
flag_bytes_cases true false true = refl
flag_bytes_cases true false false = refl
flag_bytes_cases false true true = refl
flag_bytes_cases false true false = refl
flag_bytes_cases false false true = refl
flag_bytes_cases false false false = refl

-- The flags that are written to the register are the flags that are read from it.
pub read_flags-flag_bytes : (flags : NotificationFlags) → read_flags (flag_bytes flags) ≡ ok flags
read_flags-flag_bytes flags =
    flag_bytes_cases flags.device_battery_status flags.receiver_wireless_notifications
      flags.receiver_software_present

or_byte : (k sum b : ℕ) → sum < 2 ^ k → bit_or sum (b * 2 ^ k) ≡ b * 2 ^ k + sum
or_byte k sum b h = bit_or_comm sum (b * 2 ^ k) ∙ bit_or-shift k b sum h

-- Six bytes, least significant first.
abbrev six : ℕ → ℕ → ℕ → ℕ → ℕ → ℕ → ℕ
six a b c d e f = a + b * 0x100 + c * 0x10000 + d * 0x1000000 + e * 0x100000000 + f * 0x10000000000

or_six :
    (a b c d e f : ℕ)
    → a < 256
    → b < 256
    → c < 256
    → d < 256
    → e < 256
    → f < 256
    → bit_or
        (bit_or
          (bit_or (bit_or (bit_or (bit_or 0 (a * 1)) (b * 0x100)) (c * 0x10000)) (d * 0x1000000))
          (e * 0x100000000))
        (f * 0x10000000000)
      ≡ six a b c d e f
or_six a b c d e f ha hb hc hd he hf =
    let u = bit_or 0 (a * 1) in
    let v = bit_or u (b * 0x100) in
    let w = bit_or v (c * 0x10000) in
    let x = bit_or w (d * 0x1000000) in
    let y = bit_or x (e * 0x100000000) in
    let p = or_byte 0 0 a (omega arith) in
    let q = or_byte 8 u b (omega (arith, p)) in
    let r = or_byte 16 v c (omega (arith, p, q)) in
    let s = or_byte 24 w d (omega (arith, p, q, r)) in
    let t = or_byte 32 x e (omega (arith, p, q, r, s)) in
    omega (arith, p, q, r, s, t, or_byte 40 y f (omega (arith, p, q, r, s, t)))

list_six :
    {a b c d e f a' b' c' d' e' f' : ℕ}
    → a ≡ a'
    → b ≡ b'
    → c ≡ c'
    → d ≡ d'
    → e ≡ e'
    → f ≡ f'
    → (a ∷ b ∷ c ∷ d ∷ e ∷ f ∷ []) ≡ (a' ∷ b' ∷ c' ∷ d' ∷ e' ∷ f' ∷ [])
list_six ha hb hc hd he hf = rw (ha, hb, hc, hd, he, hf) refl

bytes_six :
    (a b c d e f : ℕ)
    → a < 256
    → b < 256
    → c < 256
    → d < 256
    → e < 256
    → f < 256
    → address_bytes 6 0 (six a b c d e f) ≡ a ∷ b ∷ c ∷ d ∷ e ∷ f ∷ []
unfolding address_bytes
bytes_six a b c d e f ha hb hc hd he hf =
    let n = six a b c d e f in
    list_six (omega (arith, byte_lo (n / 1))) (omega (arith, byte_lo (n / 0x100)))
      (omega (arith, byte_lo (n / 0x10000))) (omega (arith, byte_lo (n / 0x1000000)))
      (omega (arith, byte_lo (n / 0x100000000))) (omega (arith, byte_lo (n / 0x10000000000)))

params-IsByte : (r : Report) → IsValid r → All IsByte (params r)
unfolding params
params-IsByte r h = All-drop IsByte 4 r.bytes h.bytes

discovered :
    (event : DeviceDiscoveryEvent) (r : Report)
    → sub_id r ≡ device_discovered
    → get_or (params r) 1 0 ≡ 0
    → fill_device_discovery_event event r
      ≡ ok (
        record {
          device_type = get_or (params r) 3 0;
          seq_num = address r;
          address = or_address 6 0 (params r) 0;
          pid = bit_or (get_or (params r) 5 0 * 256) (get_or (params r) 4 0);
          authentication = get_or (params r) 14 0;
          name = [];
        },
        false,
      )
unfolding fill_device_discovery_event
discovered event r sub part = rw (sub, part) refl

-- A notification of a discovered device starts an event, and the request to pair that device carries
-- the six bytes of its address as they stood in the notification, and its authentication byte.
pub fill-bolt_pairing_bytes :
    (event : DeviceDiscoveryEvent) (r : Report)
    → IsValid r
    → sub_id r ≡ device_discovered
    → get_or (params r) 1 0 ≡ 0
    → (event' : DeviceDiscoveryEvent) × (fill_device_discovery_event event r ≡ ok (event', false))
      × (take 6 (drop 2 (bolt_pairing_bytes event'))
          ≡ get_or (params r) 6 0
            ∷ get_or (params r) 7 0
            ∷ get_or (params r) 8 0
            ∷ get_or (params r) 9 0
            ∷ get_or (params r) 10 0
            ∷ get_or (params r) 11 0
            ∷ [])
      × (get_or (bolt_pairing_bytes event') 8 0 ≡ get_or (params r) 14 0)
unfolding bolt_pairing_bytes or_address address_bytes
fill-bolt_pairing_bytes event r valid sub part =
    let lt : (k : ℕ) → get_or (params r) k 0 < 256 =
      λ k. All-get_or IsByte (params r) k 0 (omega arith) (params-IsByte r valid) in
    let d = params r in
    (
      _,
      discovered event r sub part,
      ap (address_bytes 6 0) (
            or_six (get_or d 6 0) (get_or d 7 0) (get_or d 8 0) (get_or d 9 0) (get_or d 10 0)
              (get_or d 11 0) (lt 6) (lt 7) (lt 8) (lt 9) (lt 10) (lt 11))
          ∙ bytes_six (get_or d 6 0) (get_or d 7 0) (get_or d 8 0) (get_or d 9 0) (get_or d 10 0)
              (get_or d 11 0) (lt 6) (lt 7) (lt 8) (lt 9) (lt 10) (lt 11),
      refl,
    )
