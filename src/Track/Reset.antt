-- ===== src/Track/Reset.antt =====
-- src/impl/track.cpp: the getters of the counters, and the two resets.
use conference_go_client.Common.{◌≡◌, refl}
use conference_go_client.Track.{
  Track, reset_rtp_data, reset_rtcp_data, get_rtp_drops_bytes, get_rtp_drops_packets,
  get_rtp_receives_bytes, get_rtp_receives_packets, get_rtp_packet_mean_size, get_rtcp_drops_bytes,
  get_rtcp_drops_packets, get_rtcp_receives_bytes, get_rtcp_receives_packets,
  get_rtcp_packet_mean_size,
}

module _ {B Ch : Type 0} where
  -- Every getter of RTP reads the same.
  abbrev pub RtpAre : Track B Ch → Track B Ch → Type 0
  RtpAre t u =
      (get_rtp_drops_bytes u ≡ get_rtp_drops_bytes t)
      × (get_rtp_drops_packets u ≡ get_rtp_drops_packets t)
      × (get_rtp_receives_bytes u ≡ get_rtp_receives_bytes t)
      × (get_rtp_receives_packets u ≡ get_rtp_receives_packets t)
      × (get_rtp_packet_mean_size u ≡ get_rtp_packet_mean_size t)

  -- Every getter of RTCP reads the same.
  abbrev pub RtcpAre : Track B Ch → Track B Ch → Type 0
  RtcpAre t u =
      (get_rtcp_drops_bytes u ≡ get_rtcp_drops_bytes t)
      × (get_rtcp_drops_packets u ≡ get_rtcp_drops_packets t)
      × (get_rtcp_receives_bytes u ≡ get_rtcp_receives_bytes t)
      × (get_rtcp_receives_packets u ≡ get_rtcp_receives_packets t)
      × (get_rtcp_packet_mean_size u ≡ get_rtcp_packet_mean_size t)

  -- The counters of RTP read as 0, the mean size too.
  abbrev pub RtpClear : Track B Ch → Type 0
  RtpClear u =
      (get_rtp_drops_bytes u ≡ 0)
      × (get_rtp_drops_packets u ≡ 0)
      × (get_rtp_receives_bytes u ≡ 0)
      × (get_rtp_receives_packets u ≡ 0)
      × (get_rtp_packet_mean_size u ≡ 0)

  -- The counters of RTCP read as 0, the mean size too.
  abbrev pub RtcpClear : Track B Ch → Type 0
  RtcpClear u =
      (get_rtcp_drops_bytes u ≡ 0)
      × (get_rtcp_drops_packets u ≡ 0)
      × (get_rtcp_receives_bytes u ≡ 0)
      × (get_rtcp_receives_packets u ≡ 0)
      × (get_rtcp_packet_mean_size u ≡ 0)

  -- Each reset makes every getter of its kind read 0, the mean size too, which is not divided by
  -- zero then, and leaves every getter of the other kind; the two resets may be made in any order.
  reset_data :
      (t : Track B Ch)
      → RtpClear (reset_rtp_data t)
        × RtcpAre t (reset_rtp_data t)
        × RtcpClear (reset_rtcp_data t)
        × RtpAre t (reset_rtcp_data t)
        × (reset_rtp_data (reset_rtcp_data t) ≡ reset_rtcp_data (reset_rtp_data t))
  unfolding reset_rtp_data reset_rtcp_data get_rtp_drops_bytes get_rtp_drops_packets
      get_rtp_receives_bytes get_rtp_receives_packets get_rtp_packet_mean_size get_rtcp_drops_bytes
      get_rtcp_drops_packets get_rtcp_receives_bytes get_rtcp_receives_packets
      get_rtcp_packet_mean_size
  reset_data t = (
    (refl, refl, refl, refl, refl),
    (refl, refl, refl, refl, refl),
    (refl, refl, refl, refl, refl),
    (refl, refl, refl, refl, refl),
    refl,
  )
