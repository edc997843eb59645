-- ===== src/Protocol/Content.antt =====
-- The content types of protocol/protocol_content.go. A `*T` is an option.
pub mod Json
use kimi_wire_go.Prelude.{String, Bool, Option, List}

pub record TextPart : Type 0 where
  pub text : String

pub record ThinkPart : Type 0 where
  pub think : String
  pub encrypted : String

pub record MediaUrl : Type 0 where
  pub url : String
  pub id : String

pub record ImageUrlPart : Type 0 where
  pub image_url : MediaUrl

pub record AudioUrlPart : Type 0 where
  pub audio_url : MediaUrl

pub record VideoUrlPart : Type 0 where
  pub video_url : MediaUrl

pub record ContentPart : Type 0 where
  pub type : String
  pub text : Option TextPart
  pub think : Option ThinkPart
  pub image_url : Option ImageUrlPart
  pub audio_url : Option AudioUrlPart
  pub video_url : Option VideoUrlPart

pub record UserInput : Type 0 where
  pub text : String
  pub parts : List ContentPart

pub record TodoDisplayItem : Type 0 where
  pub title : String
  pub status : String

-- `raw_data` is the field Data.
pub record DisplayBlock (Raw : Type 0) : Type 0 where
  pub type : String
  pub text : String
  pub path : String
  pub old_text : String
  pub new_text : String
  pub is_summary : Option Bool
  pub items : List TodoDisplayItem
  pub language : String
  pub command : String
  pub raw_data : Option Raw

pub record ToolOutput : Type 0 where
  pub text : String
  pub parts : List ContentPart

pub record ToolReturnValue (Raw : Type 0) : Type 0 where
  pub is_error : Bool
  pub output : ToolOutput
  pub message : String
  pub display : List (DisplayBlock Raw)
  pub extras : Option Raw
