-- ===== src/VeDirect/Commands.antt =====
-- `Vedirect.send_hex_cmd`: the commands in HEX to a device.
use navigation_server.Base.{
  ℕ, zero, suc, ◌+◌, ◌-◌, ◌*◌, ◌/◌, ◌%◌, ◌^◌, ◌<◌, ◌≡◌, refl, Bool, true, false, ◌&&◌, List, [],
  ◌∷◌, ◌++◌, ltb, ltb-false, lt→ltb, if◌then◌else◌, length, take, set, arith, Result, ok, err,
  ◌>>=◌, index_error, overflow_error, ve_direct,
}
use navigation_server.Base.Texts.{upper_digit}

-- value.to_bytes(length, 'big'), for a value that fits.
abbrev pub big_endian : ℕ → ℕ → List ℕ
big_endian zero value = []
big_endian (suc n) value = value / 256 ^ n % 256 ∷ big_endian n value

unfoldable pub to_bytes : ℕ → ℕ → Result (List ℕ)
to_bytes value length =
    if ltb value (256 ^ length) then ok (big_endian length value) else err overflow_error

-- bytes.hex().upper().encode()
abbrev pub hex_encoded : List ℕ → List ℕ
hex_encoded [] = []
hex_encoded (b ∷ bs) = upper_digit (b / 16) ∷ upper_digit (b % 16) ∷ hex_encoded bs

-- `while nb_nibble_count < length`, from `start` on: the count is never advanced. `taken` is what is
-- subtracted from the checksum.
unfoldable pub take_nibbles : ℕ → List ℕ → ℕ → Result ℕ
take_nibbles zero bytes taken = ok taken
take_nibbles (suc length) [] taken = err index_error
take_nibbles (suc length) (a ∷ []) taken = err index_error
take_nibbles (suc length) (a ∷ b ∷ bytes) taken =
    take_nibbles (suc length) bytes (taken + (a * 16 + b))

-- `_hex_send_buffer`, with the size of the command and what is subtracted so far.
pub record Command : Type 0 where
  pub buffer : List ℕ
  pub cmd_size : ℕ
  pub taken : ℕ

unfoldable pub add_parameter : Command → ℕ → ℕ → Result Command
unfolding to_bytes take_nibbles
add_parameter c length value = to_bytes value length >>= λ (bytes_val : List ℕ).
    take_nibbles length bytes_val c.taken >>= λ (taken : ℕ). ok (record {
      buffer = take c.cmd_size c.buffer ++ hex_encoded bytes_val;
      cmd_size = c.cmd_size + length * 2;
      taken = taken;
    })

unfoldable pub add_parameters : Command → List (ℕ × ℕ) → Result Command
unfolding add_parameter
add_parameters c [] = ok c
add_parameters c ((length, value) ∷ parameters) =
    add_parameter c length value >>= λ (c' : Command). add_parameters c' parameters

-- The checksum and the end: what is written to the port, and the buffer after it.
unfoldable pub finish_command : ℕ → Command → Result (List ℕ × List ℕ)
unfolding to_bytes
finish_command cmd c =
    (if ltb 0x55 (cmd + c.taken) then err overflow_error else to_bytes (0x55 - (cmd + c.taken)) 2)
    >>= λ (checksum : List ℕ).
        let buffer = set (take c.cmd_size c.buffer ++ hex_encoded checksum) (c.cmd_size + 2) 0x10 in
        ok (take (c.cmd_size + 3) buffer, buffer)

abbrev pub hex_cmd : ℕ → Result ℕ
hex_cmd cmd =
    if ltb 0 cmd && ltb cmd 10
    then ok (0x30 + cmd)
    else if ltb cmd 17
    then ok (0x31 + cmd)
    else err ve_direct

-- `writes` says whether the port takes what is written. A command is a number from 0 on.
unfoldable pub send_hex_cmd : Bool → List ℕ → ℕ → List (ℕ × ℕ) → Result (List ℕ × List ℕ)
unfolding add_parameters finish_command set
send_hex_cmd writes buffer cmd parameters = hex_cmd cmd >>= λ (code : ℕ).
    add_parameters (record { buffer = set buffer 1 code; cmd_size = 2; taken = 0 }) parameters
    >>= λ (c : Command). finish_command cmd c >>= λ (frame : List ℕ × List ℕ).
        if writes then ok frame else err ve_direct

-- Every byte that `to_bytes` gives makes the loop run to its end.
nibbles_raise :
    (length : ℕ) (bytes : List ℕ) (taken : ℕ)
    → take_nibbles (suc length) bytes taken ≡ err index_error
unfolding take_nibbles
nibbles_raise length [] taken = refl
nibbles_raise length (a ∷ []) taken = refl
nibbles_raise length (a ∷ b ∷ bytes) taken = nibbles_raise length bytes (taken + (a * 16 + b))

-- A legal command without parameters is written with the digits 00 in place of its checksum, and with
-- the byte 0x10 for the end of the line. With a first parameter of a positive length that
-- can hold its value it raises IndexError, and nothing is written.
pub send_hex_cmd_wrong :
    (rest : List ℕ) (old cmd length value : ℕ) (others : List (ℕ × ℕ))
    → 0 < cmd
    → cmd < 10
    → value < 256 ^ suc length
    → (send_hex_cmd true (58 ∷ old ∷ rest) cmd []
        ≡ ok (
          58 ∷ (0x30 + cmd) ∷ 48 ∷ 48 ∷ 0x10 ∷ [],
          58 ∷ (0x30 + cmd) ∷ 48 ∷ 48 ∷ 0x10 ∷ upper_digit ((0x55 - cmd) % 16) ∷ [],
        ))
      × (send_hex_cmd true (58 ∷ old ∷ rest) cmd ((suc length, value) ∷ others) ≡ err index_error)
unfolding send_hex_cmd
send_hex_cmd_wrong rest old cmd length value others low high fits =
    let positive : ltb 0 cmd ≡ true = lt→ltb 0 cmd low in
    let small : ltb cmd 10 ≡ true = lt→ltb cmd 10 high in
    let enough : ltb 85 (cmd + 0) ≡ false = ltb-false 85 (cmd + 0) (omega (arith, high)) in
    let two_bytes : ltb (85 - (cmd + 0)) 65536 ≡ true =
      lt→ltb (85 - (cmd + 0)) 65536 (omega arith) in
    let first : (85 - (cmd + 0)) / 256 % 256 ≡ 0 = omega arith in
    let last : (85 - (cmd + 0)) / 1 % 256 % 16 ≡ (85 - cmd) % 16 = omega (arith, high) in
    (
      rw (positive, small) (rw (enough, two_bytes) (rw (first, last) refl)),
      rw (positive, small)
          (rw (lt→ltb value (256 ^ suc length) fits)
            (rw (nibbles_raise length (big_endian (suc length) value) 0) refl)),
    )
