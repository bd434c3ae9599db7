-- ===== src/Client/Frame/RoundTrip.antt =====
-- webSocket_dePackage behind webSocket_enPackage.
use dog_server.Base.{
  ℕ, suc, ◌+◌, ◌^◌, ◌<◌, ◌≤◌, ◌≡◌, ◌≢◌, refl, Bool, Bool-cases, true, false, some, List, [], ◌∷◌,
  ◌++◌, append-nil, append_assoc, ap, sym, ◌∙◌, ltb, if◌then◌else◌, length, take, length-append,
  take-append, take-drop-append, IsBytes, arith,
}
use dog_server.Client.Frame.{
  DataType, wdt_err, wdt_null, wdt_mindata, wdt_txtdata, wdt_bindata, wdt_disconn, wdt_ping,
  wdt_pong, Packed, packed, unpacked, first_byte, length_bytes, read_range, open_body, mask_loop,
  get_random_string, en_package, de_package,
}
use dog_server.Client.Frame.Head.{
  mask_flag, head_size, length_bytes-some, frame_length-length_bytes, frame_type-first_byte,
}
use dog_server.Client.Frame.Mask.{
  length-mask_loop, mask_loop_undo, get_random_string-IsBytes, length-get_random_string,
}

read_range-append :
    (s n : ℕ) (xs ys zs : List ℕ)
    → s ≡ length xs
    → n ≡ length ys
    → read_range (xs ++ (ys ++ zs)) s n ≡ some ys
unfolding read_range
read_range-append s n xs ys zs e f =
    ground
      (arith, take-drop-append s n xs ys zs e f, length-append xs (ys ++ zs), length-append ys zs)

-- A frame of the given parts is opened to its payload.
pub open_body-parts :
    (type : DataType) (m : Bool) (head key body : List ℕ) (max : ℕ)
    → length key ≡ (if m then 4 else 0)
    → length head + length key + length body < 2 ^ 32
    → length body + 1 ≤ max
    → length body + 1 < 2 ^ 32
    → open_body type (head ++ (key ++ body)) max (length body) (length head) m
      ≡ unpacked type
          (some (length body))
          (some (length head + (if m then 4 else 0)))
          ((if m then mask_loop key 0 body else body) ++ (0 ∷ []))
unfolding open_body
open_body-parts type m head key body max k h room small = ground (
  arith,
  Bool-cases m,
  read_range-append (length head) (length key) head key body refl refl,
  read-payload,
  length-append head (key ++ body),
  length-append key body,
)
  where
    read-payload :
        read_range (head ++ (key ++ body)) (length head + length key) (length body) ≡ some body
    read-payload =
        let joined : (head ++ key) ++ (body ++ []) ≡ head ++ (key ++ body) =
          append_assoc head key (body ++ [])
          ∙ ap (λ (t : List ℕ). head ++ (key ++ t)) (append-nil body) in
        rw (← joined) (
          read_range-append (length head + length key) (length body) (head ++ key) body []
            (sym (length-append head key)) refl)

de_package-parts :
    (type : DataType) (m : Bool) (first : ℕ) (lb key body : List ℕ) (room max : ℕ)
    → first_byte type ≡ some first
    → length_bytes (length body) room (mask_flag m) ≡ some lb
    → length key ≡ (if m then 4 else 0)
    → length body + 14 < 2 ^ 32
    → length body < max
    → de_package ((first ∷ lb) ++ (key ++ body)) max
      ≡ unpacked type
          (some (length body))
          (some (head_size (length body) + (if m then 4 else 0)))
          ((if m then mask_loop key 0 body else body) ++ (0 ∷ []))
unfolding de_package
de_package-parts type m first lb key body room max ft lbs k small fits =
    let facts =
      frame_length-length_bytes m (length body) room first lb (key ++ body) (omega arith) lbs in
    let enough : ltb (length ((first ∷ lb) ++ (key ++ body))) 2 ≡ false =
      ground (arith, facts, length-append lb (key ++ body)) in
    let opened =
      open_body-parts type m (first ∷ lb) key body max k (ground (arith, facts)) (omega arith)
        (omega arith) in
    rw (enough, frame_type-first_byte type first ft, facts.0, facts.1, ← facts.2) opened

-- The bytes that webSocket_enPackage stores for a valid type in a buffer with room.
pub en_package-parts :
    (data_ : List ℕ) (max : ℕ) (m : Bool) (type : DataType) (rand : ℕ → ℕ) (first : ℕ) (lb : List ℕ)
    → first_byte type ≡ some first
    → length_bytes (length data_) max (mask_flag m) ≡ some lb
    → length data_ + 14 < 2 ^ 32
    → length data_ + 14 ≤ max
    → let key = if m then get_random_string rand 0 4 else [] in
      let body = if m then mask_loop key 0 data_ else data_ in
      en_package data_ 0 max m type rand
      ≡ packed
          ((first ∷ lb) ++ (key ++ (body ++ (0 ∷ []))))
          (suc (length lb) + length key + length data_)
unfolding en_package
en_package-parts data_ max true type rand first lb ft lbs small room =
    let head-facts =
      frame_length-length_bytes true (length data_) max first lb [] (omega arith) lbs in
    ground (arith, head-facts, length-get_random_string rand 0 4)
en_package-parts data_ max false type rand first lb ft lbs small room =
    let head-facts =
      frame_length-length_bytes false (length data_) max first lb [] (omega arith) lbs in
    ground (arith, head-facts)

abbrev pub mask_size : Bool → ℕ
mask_size m = if m then 4 else 0

-- What a receiver gets of a frame: the stored bytes but the closing '\0'.
abbrev pub on_wire : Packed → List ℕ
on_wire Packed.failed = []
on_wire (packed stored len) = take len stored

pub first_byte-some :
    (type : DataType) → type ≢ wdt_err → type ≢ wdt_null → (b : ℕ) × (first_byte type ≡ some b)
unfolding first_byte
first_byte-some wdt_mindata e n = (_, refl)
first_byte-some wdt_txtdata e n = (_, refl)
first_byte-some wdt_bindata e n = (_, refl)
first_byte-some wdt_disconn e n = (_, refl)
first_byte-some wdt_ping e n = (_, refl)
first_byte-some wdt_pong e n = (_, refl)
first_byte-some wdt_err e n = absurd (e refl)
first_byte-some wdt_null e n = absurd (n refl)

take-frame :
    (head key body : List ℕ) (n : ℕ)
    → n ≡ length head + length key + length body
    → take n (head ++ (key ++ (body ++ (0 ∷ [])))) ≡ head ++ (key ++ body)
take-frame head key body n e =
    let joined : (head ++ (key ++ body)) ++ (0 ∷ []) ≡ head ++ (key ++ (body ++ (0 ∷ []))) =
      simp append_assoc in
    rw (← joined) (
      take-append n (head ++ (key ++ body)) (0 ∷ [])
        (omega (arith, length-append head (key ++ body), length-append key body)))

-- What goes on the wire: the head, the mask and the payload.
pub on_wire-en_package :
    (data_ : List ℕ) (max : ℕ) (m : Bool) (type : DataType) (rand : ℕ → ℕ)
    → length data_ + 14 < 2 ^ 32
    → length data_ + 14 ≤ max
    → type ≢ wdt_err
    → type ≢ wdt_null
    → let key = if m then get_random_string rand 0 4 else [] in
      let body = if m then mask_loop key 0 data_ else data_ in
      (first : ℕ) × (lb : List ℕ) × (first_byte type ≡ some first)
      × (length_bytes (length data_) max (mask_flag m) ≡ some lb)
      × (on_wire (en_package data_ 0 max m type rand) ≡ (first ∷ lb) ++ (key ++ body))
on_wire-en_package data_ max true type rand small enough not_err not_null =
    let (first, ft) = first_byte-some type not_err not_null in
    let (lb, lbs) = length_bytes-some true (length data_) max (omega arith) enough in
    let key = get_random_string rand 0 4 in
    let same = length-mask_loop key 0 data_ in
    (
      first,
      lb,
      ft,
      lbs,
      rw (en_package-parts data_ max true type rand first lb ft lbs small enough) (
          take-frame (first ∷ lb) key (mask_loop key 0 data_) _
            (ap (λ (t : ℕ). suc (length lb) + length key + t) (sym same))),
    )
on_wire-en_package data_ max false type rand small enough not_err not_null =
    let (first, ft) = first_byte-some type not_err not_null in
    let (lb, lbs) = length_bytes-some false (length data_) max (omega arith) enough in
    (
      first,
      lb,
      ft,
      lbs,
      rw (en_package-parts data_ max false type rand first lb ft lbs small enough)
          (take-frame (first ∷ lb) [] data_ _ refl),
    )

module _ (data_ : List ℕ) (max room : ℕ) (type : DataType) (rand : ℕ → ℕ) (bytes : IsBytes data_)
    (small : length data_ + 14 < 2 ^ 32) (enough : length data_ + 14 ≤ max)
    (fits : length data_ < room) (not_err : type ≢ wdt_err) (not_null : type ≢ wdt_null) where
  -- Packing a payload of bytes, of any valid type, with or without a mask, into a buffer with 14
  -- bytes more than the payload, and unpacking what goes on the wire into a buffer that is
  -- longer than the payload, gives back the type, the payload's length, the size of the head
  -- with its mask, and the payload with a closing '\0'. The payload is shorter than 2 ^ 32 - 14.
  pub de_package-en_package :
      (m : Bool)
      → de_package (on_wire (en_package data_ 0 max m type rand)) room
        ≡ unpacked type
            (some (length data_))
            (some (head_size (length data_) + mask_size m))
            (data_ ++ (0 ∷ []))
  de_package-en_package true =
      let key = get_random_string rand 0 4 in
      let body = mask_loop key 0 data_ in
      let same = length-mask_loop key 0 data_ in
      let (first, lb, ft, lbs, wire) =
        on_wire-en_package data_ max true type rand small enough not_err not_null in
      let parts =
        de_package-parts type true first lb key body max room ft (rw same lbs)
          (length-get_random_string rand 0 4) (omega (arith, same)) (omega (arith, same)) in
      rw wire
        (rw (same, mask_loop_undo key 0 data_ (get_random_string-IsBytes rand 0 4) bytes) at parts)
  de_package-en_package false =
      let (first, lb, ft, lbs, wire) =
        on_wire-en_package data_ max false type rand small enough not_err not_null in
      rw wire (de_package-parts type false first lb [] data_ max room ft lbs refl small fits)
