-- ===== src/Protocol/EventLog/Identity.antt =====
-- `validate_wire_identity` and `validate_sha256_digest` of src/execution_protocol/event.rs.
use Prim.Native.Char.{code}
use Prim.Native.String.{[] as empty_text, ◌∷◌ as text_cons}
use rustgrid_agent.Prelude.{
  ℕ, ◌+◌, String, Bool, true, false, not, ◌&&◌, ◌||◌, leb, ltb, nat_eq, if◌then◌else◌,
}
use rustgrid_agent.Protocol.Violation.{Result, invalid_identity, reject_if}
use rustgrid_agent.Protocol.Ledger.Guards.{is_whitespace}

abbrev pub max_event_identity_bytes : ℕ
max_event_identity_bytes = 256

-- The bytes of a character in UTF-8.
abbrev pub utf8_bytes : ℕ → ℕ
utf8_bytes c = if ltb c 0x80 then 1 else if ltb c 0x800 then 2 else if ltb c 0x10000 then 3 else 4

-- `value.len()`
unfoldable pub byte_length : String → ℕ
byte_length empty_text = 0
byte_length (text_cons c s) = utf8_bytes (code c) + byte_length s

unfoldable pub starts_with_space : String → Bool
starts_with_space empty_text = false
starts_with_space (text_cons c s) = is_whitespace (code c)

unfoldable pub ends_with_space : Bool → String → Bool
ends_with_space space empty_text = space
ends_with_space space (text_cons c s) = ends_with_space (is_whitespace (code c)) s

-- `value.bytes().any(|byte| byte.is_ascii_control())`: no byte of a longer character is one.
unfoldable pub has_control : String → Bool
has_control empty_text = false
has_control (text_cons c s) = ltb (code c) 32 || nat_eq (code c) 127 || has_control s

unfoldable pub all_lower_hex : String → Bool
all_lower_hex empty_text = true
all_lower_hex (text_cons c s) =
    (leb 48 (code c) && leb (code c) 57 || leb 97 (code c) && leb (code c) 102) && all_lower_hex s

unfoldable pub validate_wire_identity : String → String → Result (Unit {0})
validate_wire_identity field value =
    reject_if
      (nat_eq (byte_length value) 0
        || (starts_with_space value || ends_with_space false value)
        || ltb max_event_identity_bytes (byte_length value)
        || has_control value)
      (invalid_identity field)

unfoldable pub validate_sha256_digest : String → String → Result (Unit {0})
validate_sha256_digest field value =
    reject_if (not (nat_eq (byte_length value) 64) || not (all_lower_hex value))
      (invalid_identity field)
