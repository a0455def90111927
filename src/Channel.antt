-- ===== src/Channel.antt =====
-- internal/channel/channel.go: where a message comes from, and a message on its channel. A child
-- models the tracker of busy and idle channels.
pub mod Activity
mod Tests
use tclaw.Base.{String, Option}

-- `MessageSource` is a string type in Go, so a value outside the declared constants is possible.
pub data MessageSource : Type 0 where
  user : MessageSource
  schedule : MessageSource
  channel : MessageSource
  initial_message : MessageSource
  resume : MessageSource
  notification : MessageSource
  child : MessageSource
  other : String → MessageSource

pub record MessageSourceInfo : Type 0 where
  pub source : MessageSource
  pub from_channel : String
  pub schedule_name : String
  pub subscription_id : String
  pub subscription_label : String
  pub child_channel : String

pub record TaggedMessage : Type 0 where
  pub channel_id : String
  pub text : String
  pub source_info : Option MessageSourceInfo
