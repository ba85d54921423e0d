-- ===== src/CfgoSrc.antt =====
-- src/gst/cfgosrc.cpp: the source element that feeds the tracks of a subscription to GStreamer, part
-- by part.
pub mod Channels
pub mod Life
pub mod Loop
pub mod Owner
pub mod Pads
pub mod Switching
pub mod Posting
mod Tests
