-- ===== src/Protocol.antt =====
-- The wire types and their envelopes: the package under protocol/. A JSON text (json.RawMessage or
-- []byte) is a value of a type `Raw` that every user chooses; encoding/json enters as the record
-- `Codec.Codecs`. Named string types (PromptStatus, HookAction and the like) are texts, as in Go.
pub mod Content
pub mod Event
pub mod Request
pub mod Method
pub mod Jsonrpc
pub mod Codec
pub mod Envelope
pub mod Message
