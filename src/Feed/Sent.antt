-- ===== src/Feed/Sent.antt =====
-- About frames that a provider sends and what is decoded from them (`decode_envelope` of
-- server/timing/protocol.py).
use Prim.Native.Char.{Char}
use balchug_racing.Grid.Text.{append}
use balchug_racing.Base.{
  ◌≡◌, refl, ap, String, Bool, true, false, not, ◌&&◌, arith, Option, none, some, List, [], ◌∷◌,
  ◌++◌, str_eq, All,
}
use balchug_racing.Wire.Json.{
  Json, null, boolean, integer, float, string, array, object, end, item, Fields, to_list, to_items,
  get,
}
use balchug_racing.Feed.Protocol.{
  Codec, decoded, SignalRMessage, messages_from_entries, is_colon, without_checksum,
  decode_utf16_payload, decode_entry, decode_entries, decode_messages, decode_loaded,
  decode_envelope, extend,
}

-- a message without the mark of compression, as the provider sends it
abbrev pub Call : Type 0
Call = String × List Json

abbrev pub entry_of : Call → Json
entry_of (handle, args) = array (item (string handle) (to_items args))

abbrev pub entries_of : List Call → List Json
entries_of [] = []
entries_of (c ∷ cs) = entry_of c ∷ entries_of cs

abbrev pub received : Bool → Call → SignalRMessage
received compressed (handle, args) = record {
  handle = handle;
  args = args;
  compressed = compressed;
}

abbrev pub all_received : Bool → List Call → List SignalRMessage
all_received compressed [] = []
all_received compressed (c ∷ cs) = received compressed c ∷ all_received compressed cs

-- a part of a frame: a call, or the text that calls are compressed to, with a checksum or without
pub data Part : Type 0 where
  plain : Call → Part
  packed : String → Option String → List Call → Part

abbrev pub payload_of : String → Option String → String
payload_of body none = body
payload_of body (some checksum) = append body (append "::" checksum)

abbrev pub wire : List Part → List Json
wire [] = []
wire (plain c ∷ parts) = entry_of c ∷ wire parts
wire (packed body checksum cs ∷ parts) =
    array (item (string "_") (item (string (payload_of body checksum)) end)) ∷ wire parts

abbrev pub carried : List Part → List SignalRMessage
carried [] = []
carried (plain c ∷ parts) = received false c ∷ carried parts
carried (packed body checksum cs ∷ parts) = all_received true cs ++ carried parts

-- two colons do not follow each other
abbrev pub is_unsplit : String → Bool
is_unsplit String.[] = true
is_unsplit (String.◌∷◌ c s) = begins c s && is_unsplit s
  where
    begins : Char → String → Bool
    begins c String.[] = true
    begins c (String.◌∷◌ d s) = not (is_colon c && is_colon d)

-- the compressed text can be told from a checksum that follows it
abbrev pub is_apart : String → Option String → Bool
is_apart body none = is_unsplit body
is_apart body (some checksum) = is_unsplit (append body ":")

-- A call has another handle than a compressed payload. The compressed text is apart from its checksum,
-- and decompresses to a text that loads as the list of its calls.
abbrev pub IsSent : Codec → Part → Type 0
IsSent codec (plain (handle, args)) = str_eq handle "_" ≡ false
IsSent codec (packed body checksum cs) =
    (is_apart body checksum ≡ true)
    × ((text : String) × (codec.decompress body ≡ some text)
        × (codec.loads text ≡ some (array (to_items (entries_of cs)))))

without_checksum-body : (s : String) → is_unsplit s ≡ true → without_checksum s ≡ s
unfolding without_checksum
without_checksum-body String.[] h = refl
without_checksum-body (String.◌∷◌ c String.[]) h = refl
without_checksum-body (String.◌∷◌ c (String.◌∷◌ d s)) h =
    let apart : (is_colon c && is_colon d) ≡ false = ground (arith, h) in
    let rest : is_unsplit (String.◌∷◌ d s) ≡ true = ground (arith, h) in
    rw apart (ap (String.◌∷◌ c) (without_checksum-body (String.◌∷◌ d s) rest))

without_checksum-append :
    (s checksum : String)
    → is_unsplit (append s ":") ≡ true
    → without_checksum (append s (append "::" checksum)) ≡ s
unfolding without_checksum
without_checksum-append String.[] checksum h = refl
without_checksum-append (String.◌∷◌ c String.[]) checksum h =
    let apart : is_colon c ≡ false = ground (arith, h) in rw apart refl
without_checksum-append (String.◌∷◌ c (String.◌∷◌ d s)) checksum h =
    let apart : (is_colon c && is_colon d) ≡ false = ground (arith, h) in
    let rest : is_unsplit (append (String.◌∷◌ d s) ":") ≡ true = ground (arith, h) in
    rw apart (ap (String.◌∷◌ c) (without_checksum-append (String.◌∷◌ d s) checksum rest))

without_checksum-payload_of :
    (body : String) (checksum : Option String)
    → is_apart body checksum ≡ true
    → without_checksum (payload_of body checksum) ≡ body
without_checksum-payload_of body none h = without_checksum-body body h
without_checksum-payload_of body (some checksum) h = without_checksum-append body checksum h

to_list-to_items : (js : List Json) → to_list (to_items js) ≡ js
to_list-to_items [] = refl
to_list-to_items (j ∷ js) = ap (λ ks. j ∷ ks) (to_list-to_items js)

messages_from_entries-entries_of :
    (compressed : Bool) (cs : List Call)
    → messages_from_entries compressed (entries_of cs) ≡ all_received compressed cs
unfolding messages_from_entries
messages_from_entries-entries_of compressed [] = refl
messages_from_entries-entries_of compressed ((handle, args) ∷ cs) =
    rw (to_list-to_items args, messages_from_entries-entries_of compressed cs) refl

-- an entry of a call, whatever its arguments are
decode_entry-call :
    (codec : Codec) (handle : String) (args : List Json) (messages : List SignalRMessage)
    → str_eq handle "_" ≡ false
    → decode_entry codec handle (to_items args) (decoded messages)
      ≡ decoded (received false (handle, args) ∷ messages)
unfolding decode_entry
decode_entry-call codec handle [] messages h = refl
decode_entry-call codec handle (string s ∷ js) messages h = rw (h, to_list-to_items js) refl
decode_entry-call codec handle (null ∷ js) messages h = rw (to_list-to_items js) refl
decode_entry-call codec handle (boolean b ∷ js) messages h = rw (to_list-to_items js) refl
decode_entry-call codec handle (integer n ∷ js) messages h = rw (to_list-to_items js) refl
decode_entry-call codec handle (float s ∷ js) messages h = rw (to_list-to_items js) refl
decode_entry-call codec handle (array items ∷ js) messages h = rw (to_list-to_items js) refl
decode_entry-call codec handle (object fs ∷ js) messages h = rw (to_list-to_items js) refl

decode_entry-packed :
    (codec : Codec) (body : String) (checksum : Option String) (cs : List Call)
    (messages : List SignalRMessage)
    → IsSent codec (packed body checksum cs)
    → decode_entry codec "_" (item (string (payload_of body checksum)) end) (decoded messages)
      ≡ decoded (all_received true cs ++ messages)
unfolding decode_entry decode_utf16_payload extend
decode_entry-packed codec body checksum cs messages (apart, (text, unpacked, loaded)) =
    rw
      (
        without_checksum-payload_of body checksum apart,
        unpacked,
        loaded,
        to_list-to_items (entries_of cs),
        messages_from_entries-entries_of true cs,
      )
      refl

decode_entries-wire :
    (codec : Codec) (parts : List Part)
    → All (IsSent codec) parts
    → decode_entries codec (wire parts) ≡ decoded (carried parts)
unfolding decode_entries
decode_entries-wire codec [] h = refl
decode_entries-wire codec (plain (handle, args) ∷ parts) h =
    rw (decode_entries-wire codec parts h.1)
      (decode_entry-call codec handle args (carried parts) h.0)
decode_entries-wire codec (packed body checksum cs ∷ parts) h =
    rw (decode_entries-wire codec parts h.1)
      (decode_entry-packed codec body checksum cs (carried parts) h.0)

-- A frame that carries calls, one by one or compressed, is decoded to these calls in the order in which
-- they were sent, with their arguments, and each marked as compressed just if it was, whether a checksum
-- follows the compressed text or not: if no call is named "_", the compressed text has no two colons in a
-- row nor a colon before those of its checksum, it decompresses to a text that loads as the list of its
-- calls, and the text of the frame loads as its envelope.
pub decode_envelope-wire :
    (codec : Codec) (raw_text : String) (envelope : Fields) (parts : List Part)
    → codec.loads raw_text ≡ some (object envelope)
    → get "M" envelope ≡ some (array (to_items (wire parts)))
    → All (IsSent codec) parts
    → decode_envelope codec raw_text ≡ decoded (envelope, carried parts)
unfolding decode_envelope decode_loaded decode_messages
decode_envelope-wire codec raw_text envelope parts loaded found sent =
    rw (loaded, found, to_list-to_items (wire parts), decode_entries-wire codec parts sent) refl
