-- ===== src/Ipc/Frame.antt =====
-- What `ipc_frame_parse` accepts, and that it reads back what `ipc_frame_build` writes.
use green_right_topst_linux.Base.{
  ℕ, ◌+◌, ◌-◌, ◌*◌, ◌/◌, ◌%◌, ◌^◌, ◌≤◌, ◌<◌, ◌≡◌, refl, sym, ◌∙◌, List, [], ◌∷◌, ◌++◌, ◌≢◌,
  append_assoc, some, arith, length, get_or, take, drop, length-append, take-append,
  get_or-append_right, bit_and_low, bit_or_shifted,
}
use green_right_topst_linux.Crc.{ipc_calc_crc16, ipc_calc_crc16-lt, ipc_calc_crc16-append}
use green_right_topst_linux.Ipc.{
  IpcFrame, parse_ok, big_endian16, high_byte, low_byte, tx_prefix, ipc_frame_parse,
  ipc_frame_build,
}

pub high_byte_lem : (v : ℕ) → v < 2 ^ 16 → high_byte v ≡ v / 256
unfolding high_byte
high_byte_lem v h = omega (arith, bit_and_low 8 (v / 256))

pub low_byte_lem : (v : ℕ) → low_byte v ≡ v % 256
unfolding low_byte
low_byte_lem v = omega (arith, bit_and_low 8 v)

pub big_endian16_lem : (hi lo : ℕ) → hi < 256 → lo < 256 → big_endian16 hi lo ≡ hi * 256 + lo
unfolding big_endian16
big_endian16_lem hi lo h k = omega (arith, bit_or_shifted 8 hi lo k)

-- Splitting a word into bytes and joining them gives it back.
pub big_endian16-bytes : (v : ℕ) → v < 2 ^ 16 → big_endian16 (high_byte v) (low_byte v) ≡ v
big_endian16-bytes v h =
    rw (high_byte_lem v h, low_byte_lem v)
      (omega (arith, big_endian16_lem (v / 256) (v % 256) (omega arith) (omega arith)))

-- A frame that is complete: header, a LENGTH of 8 or more that counts its data, and its checksum.
pub record IsFrame (buf : List ℕ) (len : ℕ) : Type 0 where
  pub sync : get_or buf 0 0 ≡ 0xff
  pub start1 : get_or buf 1 0 ≡ 0x55
  pub start2 : get_or buf 2 0 ≡ 0xaa
  pub room : 8 ≤ big_endian16 (get_or buf 7 0) (get_or buf 8 0)
  pub fits : big_endian16 (get_or buf 7 0) (get_or buf 8 0) + 11 ≡ len
  pub checked :
      big_endian16 (get_or buf (len - 2) 0) (get_or buf (len - 1) 0) ≡ ipc_calc_crc16 buf (len - 2)

-- Such a frame is accepted, with exactly the bytes between LENGTH and checksum.
pub ipc_frame_parse-IsFrame :
    (buf : List ℕ) (len : ℕ)
    → IsFrame buf len
    → ipc_frame_parse buf len
      ≡ (parse_ok, record { can_id = 0; bytes = take (len - 11) (drop 9 buf); data_len = len - 11 })
unfolding ipc_frame_parse
ipc_frame_parse-IsFrame buf len v = ground arith

module _ (channel tx_only can_id : ℕ) (payload : List ℕ) where
  -- SYNC up to the end of the CAN data, the checksum of those bytes, and the frame.
  body : List ℕ
  body = tx_prefix channel tx_only can_id (4 + length payload) ++ payload

  crc_of_body : ℕ
  crc_of_body = ipc_calc_crc16 body (13 + length payload)

  pub built : List ℕ
  unfolding crc_of_body body
  built = body ++ high_byte crc_of_body ∷ low_byte crc_of_body ∷ []

  length-body : length body ≡ 13 + length payload
  unfolding body tx_prefix
  length-body = omega arith

  pub length-built : length built ≡ 15 + length payload
  unfolding built
  length-built =
      omega
        (arith, length-append body (high_byte crc_of_body ∷ low_byte crc_of_body ∷ []), length-body)

  pub ipc_frame_build_fits :
      (out_cap : ℕ)
      → length payload ≢ 0
      → length payload ≤ 0xfffb
      → length payload + 15 ≤ out_cap
      → ipc_frame_build channel tx_only can_id payload out_cap ≡ some built
  unfolding ipc_frame_build built
  ipc_frame_build_fits out_cap h k l = ground arith

  -- Any frame that is built is that one, and its LENGTH fits 16 bits.
  pub ipc_frame_build_only :
      (out_cap : ℕ) {f : List ℕ}
      → ipc_frame_build channel tx_only can_id payload out_cap ≡ some f
      → (length payload ≤ 0xfffb) × (built ≡ f) × (length f ≤ out_cap)
  unfolding ipc_frame_build crc_of_body body built
  ipc_frame_build_only out_cap {f} e = ground (arith, length-built)

  length_field :
      (rest : List ℕ)
      → length payload ≤ 0xfffb
      → big_endian16 (get_or (body ++ rest) 7 0) (get_or (body ++ rest) 8 0) ≡ 4 + length payload
  unfolding body tx_prefix
  length_field rest k =
      big_endian16-bytes ((4 + length payload) % 2 ^ 16) (omega arith) ∙ omega arith

  crc_field :
      (rest : List ℕ)
      → let tail = high_byte crc_of_body ∷ low_byte crc_of_body ∷ rest in
        big_endian16
          (get_or (body ++ tail) (13 + length payload) 0)
          (get_or (body ++ tail) (14 + length payload) 0)
        ≡ crc_of_body
  crc_field rest =
      let tail = high_byte crc_of_body ∷ low_byte crc_of_body ∷ rest in
      rw
        (
          get_or-append_right body tail (13 + length payload) 0 0 (omega (arith, length-body)),
          get_or-append_right body tail (14 + length payload) 1 0 (omega (arith, length-body)),
        )
        (big_endian16-bytes crc_of_body below)
    where
      below : crc_of_body < 2 ^ 16
      below = unfold crc_of_body in ipc_calc_crc16-lt body (13 + length payload)

  -- Whatever follows a built frame in the buffer, it is a complete frame.
  pub built-IsFrame :
      (rest : List ℕ)
      → 4 ≤ length payload
      → length payload ≤ 0xfffb
      → IsFrame (built ++ rest) (15 + length payload)
  unfolding built
  built-IsFrame rest h k = rw append_assoc (record {
    sync = unfold body tx_prefix in refl;
    start1 = unfold body tx_prefix in refl;
    start2 = unfold body tx_prefix in refl;
    room = omega (arith, length_field tail k);
    fits = omega (arith, length_field tail k);
    checked =
        rw (n13, n14)
          (crc_field rest
            ∙ unfold crc_of_body in
              sym (ipc_calc_crc16-append body tail (13 + length payload) (sym length-body)));
  })
    where
      tail : List ℕ
      tail = high_byte crc_of_body ∷ low_byte crc_of_body ∷ rest

      n13 : 15 + length payload - 2 ≡ 13 + length payload
      n13 = omega arith

      n14 : 15 + length payload - 1 ≡ 14 + length payload
      n14 = omega arith

  -- The bytes between LENGTH and checksum: the TX header and the CAN data.
  built_data :
      (rest : List ℕ)
      → take (4 + length payload) (drop 9 (built ++ rest))
        ≡ channel ∷ tx_only ∷ high_byte can_id ∷ low_byte can_id ∷ payload
  unfolding built tx_prefix
  built_data rest = rw append_assoc (
      take-append (channel ∷ tx_only ∷ high_byte can_id ∷ low_byte can_id ∷ payload) _
        (4 + length payload) (omega arith))

  parse_built :
      (rest : List ℕ)
      → 4 ≤ length payload
      → length payload ≤ 0xfffb
      → ipc_frame_parse (built ++ rest) (15 + length payload) ≡ (
        parse_ok,
        record {
          can_id = 0;
          bytes = channel ∷ tx_only ∷ high_byte can_id ∷ low_byte can_id ∷ payload;
          data_len = 4 + length payload;
        },
      )
  parse_built rest h k =
      ipc_frame_parse-IsFrame (built ++ rest) (15 + length payload) (built-IsFrame rest h k)
      ∙ rw (four, built_data rest)
    where
      four : 15 + length payload - 11 ≡ 4 + length payload
      four = omega arith

-- Parsing a buffer that begins with a frame made by `ipc_frame_build` from at least 4 data bytes
-- gives OK with the TX header followed by those data bytes, whatever follows in the buffer.
pub ipc_frame_parse-ipc_frame_build :
    (channel tx_only can_id : ℕ) (payload rest : List ℕ) (out_cap : ℕ) {f : List ℕ}
    → 4 ≤ length payload
    → ipc_frame_build channel tx_only can_id payload out_cap ≡ some f
    → (length f ≡ 15 + length payload)
      × (ipc_frame_parse (f ++ rest) (length f) ≡ (
        parse_ok,
        record {
          can_id = 0;
          bytes = channel ∷ tx_only ∷ high_byte can_id ∷ low_byte can_id ∷ payload;
          data_len = 4 + length payload;
        },
      ))
ipc_frame_parse-ipc_frame_build channel tx_only can_id payload rest out_cap {f} h e =
    let p = ipc_frame_build_only channel tx_only can_id payload out_cap e in
    rw (← p.1, length-built channel tx_only can_id payload)
      (refl, parse_built channel tx_only can_id payload rest h p.0)

-- Whatever `ipc_frame_parse` accepts begins with SYNC, START1 and START2, carries the checksum of
-- all its bytes before the last two, and its data are the bytes from offset 9 on: at least 8 of
-- them, and none past the end of the frame.
pub ipc_frame_parse_sound :
    (buf : List ℕ) (len : ℕ) {frame : IpcFrame}
    → ipc_frame_parse buf len ≡ (parse_ok, frame)
    → (get_or buf 0 0 ≡ 0xff)
      × (get_or buf 1 0 ≡ 0x55)
      × (get_or buf 2 0 ≡ 0xaa)
      × (big_endian16 (get_or buf (len - 2) 0) (get_or buf (len - 1) 0)
          ≡ ipc_calc_crc16 buf (len - 2))
      × (frame.bytes ≡ take frame.data_len (drop 9 buf))
      × (8 ≤ frame.data_len)
      × (9 + frame.data_len ≤ len)
      × (frame.data_len ≤ big_endian16 (get_or buf 7 0) (get_or buf 8 0))
unfolding ipc_frame_parse
ipc_frame_parse_sound buf len {frame} e = ground arith
