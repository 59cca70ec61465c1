-- ===== src/Feed/Protocol.antt =====
-- The decoder of the frames of the live feed, `_without_checksum` to `decode_envelope` of
-- server/timing/protocol.py. `json.loads` and `LZString.decompressFromUTF16` are parameters.
use Prim.Native.Char.{Char, code}
use balchug_racing.Base.{
  String, Bool, true, false, ◌&&◌, Option, none, some, List, [], ◌∷◌, ◌++◌, ◌==◌, if◌then◌else◌,
  str_eq,
}
use balchug_racing.Wire.Json.{Json, string, array, object, Items, item, Fields, to_list, get}

-- what the decoder takes from elsewhere; `none` is an error, or no result
pub record Codec : Type 0 where
  pub loads : String → Option Json
  pub decompress : String → Option String

-- how decoding ends: with a result, a `ProtocolError`, or a `TypeError`
pub data Decoded (A : Type 0) : Type 0 where
  decoded : A → Decoded A
  protocol_error : Decoded A
  type_error : Decoded A

pub record SignalRMessage : Type 0 where
  pub handle : String
  pub args : List Json
  pub compressed : Bool

-- `value.split("::", 1)[0]`
abbrev pub is_colon : Char → Bool
is_colon c = code c == 58

abbrev pub before_colons : Char → String → String → String
before_colons c String.[] rest = String.◌∷◌ c rest
before_colons c (String.◌∷◌ d s) rest =
    if is_colon c && is_colon d then String.[] else String.◌∷◌ c rest

unfoldable pub without_checksum : String → String
without_checksum String.[] = String.[]
without_checksum (String.◌∷◌ c s) = before_colons c s (without_checksum s)

abbrev pub message_list : Option Json → Decoded (List Json)
message_list (some (array items)) = decoded (to_list items)
message_list _ = protocol_error

abbrev pub load_list : Codec → Option String → Decoded (List Json)
load_list codec none = protocol_error
load_list codec (some text) = message_list (codec.loads text)

unfoldable pub decode_utf16_payload : Codec → String → Decoded (List Json)
unfolding without_checksum
decode_utf16_payload codec value = load_list codec (codec.decompress (without_checksum value))

-- `_messages_from_entries`
unfoldable pub messages_from_entries : Bool → List Json → List SignalRMessage
messages_from_entries compressed [] = []
messages_from_entries compressed (array (item (string handle) args) ∷ entries) =
    record { handle = handle; args = to_list args; compressed = compressed }
    ∷ messages_from_entries compressed entries
messages_from_entries compressed (_ ∷ entries) = messages_from_entries compressed entries

-- what follows the messages of an entry
unfoldable pub extend :
    Decoded (List Json) → Decoded (List SignalRMessage) → Decoded (List SignalRMessage)
unfolding messages_from_entries
extend (decoded entries) (decoded messages) =
    decoded (messages_from_entries true entries ++ messages)
extend (decoded entries) failed = failed
extend protocol_error rest = protocol_error
extend type_error rest = type_error

abbrev pub prepend : SignalRMessage → Decoded (List SignalRMessage) → Decoded (List SignalRMessage)
prepend message (decoded messages) = decoded (message ∷ messages)
prepend message failed = failed

-- an entry with a handle: a compressed snapshot, or a message
unfoldable pub decode_entry :
    Codec → String → Items → Decoded (List SignalRMessage) → Decoded (List SignalRMessage)
unfolding decode_utf16_payload extend
decode_entry codec handle (item (string payload) more) rest =
    if str_eq handle "_"
    then extend (decode_utf16_payload codec payload) rest
    else prepend
        (record {
          handle = handle;
          args = to_list (item (string payload) more);
          compressed = false;
        })
        rest
decode_entry codec handle args rest =
    prepend (record { handle = handle; args = to_list args; compressed = false }) rest

-- the loop over the entries
unfoldable pub decode_entries : Codec → List Json → Decoded (List SignalRMessage)
unfolding decode_entry
decode_entries codec [] = decoded []
decode_entries codec (array (item (string handle) args) ∷ entries) =
    decode_entry codec handle args (decode_entries codec entries)
decode_entries codec (_ ∷ entries) = decode_entries codec entries

-- `envelope.get("M", [])` as the loop takes it: the characters of a text and the keys of a dict are no
-- entries, and what is left cannot be iterated
unfoldable pub decode_messages : Codec → Option Json → Decoded (List SignalRMessage)
unfolding decode_entries
decode_messages codec none = decoded []
decode_messages codec (some (array items)) = decode_entries codec (to_list items)
decode_messages codec (some (object fs)) = decoded []
decode_messages codec (some (string s)) = decoded []
decode_messages codec (some _) = type_error

abbrev pub with_envelope :
    Fields → Decoded (List SignalRMessage) → Decoded (Fields × List SignalRMessage)
with_envelope fs (decoded messages) = decoded (fs, messages)
with_envelope fs protocol_error = protocol_error
with_envelope fs type_error = type_error

unfoldable pub decode_loaded : Codec → Option Json → Decoded (Fields × List SignalRMessage)
unfolding decode_messages
decode_loaded codec (some (object fs)) = with_envelope fs (decode_messages codec (get "M" fs))
decode_loaded codec _ = protocol_error

-- `decode_envelope`
unfoldable pub decode_envelope : Codec → String → Decoded (Fields × List SignalRMessage)
unfolding decode_loaded
decode_envelope codec raw_text = decode_loaded codec (codec.loads raw_text)
