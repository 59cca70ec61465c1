-- ===== src/Feed/Tests.antt =====
-- A frame with a compressed snapshot and a call (server/timing/protocol.py).
use balchug_racing.Base.{
  ◌≡◌, refl, String, Option, none, some, List, [], ◌∷◌, str_eq, if◌then◌else◌, All,
}
use balchug_racing.Base.Int.{pos}
use balchug_racing.Wire.Json.{
  Json, null, integer, string, array, object, Fields, nil, field, to_items,
}
use balchug_racing.Feed.Protocol.{Codec, decoded, type_error, decode_envelope, decode_utf16_payload}
use balchug_racing.Feed.Sent.{
  Call, Part, plain, packed, wire, carried, entries_of, IsSent, decode_envelope-wire,
}

abbrev snapshot : List Call
snapshot = ("r_i", object nil ∷ []) ∷ ("h_i", []) ∷ []

abbrev parts : List Part
parts = packed "zip" (some "77") snapshot ∷ plain ("s_t", integer (pos 5) ∷ []) ∷ []

abbrev envelope : Fields
envelope = field "C" (string "d-1") (field "M" (array (to_items (wire parts))) nil)

abbrev load : String → Option Json
load s =
    if str_eq s "frame"
    then some (object envelope)
    else if str_eq s "unzipped"
    then some (array (to_items (entries_of snapshot)))
    else none

abbrev unzip : String → Option String
unzip s = if str_eq s "zip" then some "unzipped" else none

abbrev codec : Codec
codec = record { loads = load; decompress = unzip }

parts-IsSent : All (IsSent codec) parts
unfolding decode_utf16_payload
parts-IsSent = ((refl, ("unzipped", refl, refl)), (refl, tt))

decode_envelope-wire_example : decode_envelope codec "frame" ≡ decoded (envelope, carried parts)
decode_envelope-wire_example =
    decode_envelope-wire codec "frame" envelope parts refl refl parts-IsSent

-- a frame whose messages are `null`
abbrev null_codec : Codec
null_codec = record { loads = λ _. some (object (field "M" null nil)); decompress = unzip }

null_messages : decode_envelope null_codec "{\"M\":null}" ≡ type_error
unfolding decode_envelope
null_messages = refl
