-- ===== src/Incident/Verdict/Sound.antt =====
-- When each category is named.
use install_singboxhysteria.Incident.Anomaly.{Flags, is_empty}
use install_singboxhysteria.Common.{true, false, ◌≡◌, arith, ◌↔◌, ◌||◌, ◌&&◌, ◌≢◌}
use install_singboxhysteria.Incident.Verdict.{
  Flags, attribute, Context, vps_process_or_api, vps_outbound, common_inbound_client_office,
  reality_tcp_path, hysteria2_udp_path, destination_specific, category_none,
}

-- No fault of the process, and no evidence that the whole outbound path is broken.
abbrev pub PathOnly : Flags → Type 0
PathOnly f = (f.process_fault ≡ false) × (f.generic_journal ≡ false) × (f.generic_probe ≡ false)

-- When each category is named, as `attribute_iff` says.
-- No journal burst of a transport, no generic journal error, no generic probe failure, no destination that
-- stands out, and not both transports lost clients.
abbrev pub NoNetworkFault : Flags → Type 0
NoNetworkFault f =
    (f.reality ≡ false)
    × (f.hy2 ≡ false)
    × (f.generic_journal ≡ false)
    × (f.generic_probe ≡ false)
    × (is_empty f.destination ≡ true)
    × ((f.reality_impact && f.hy2_impact) ≡ false)

abbrev pub Names : Flags → Context → Type 0
Names f c =
    (((attribute f c).0 ≡ vps_process_or_api) ↔ ((f.process_fault ≡ true) × NoNetworkFault f))
    × (((attribute f c).0 ≡ vps_outbound) ↔ (
        (f.process_fault ≡ false)
        × ((f.generic_journal
              || (f.generic_probe && (f.reality || f.hy2 || f.reality_impact || f.hy2_impact)))
            ≡ true)))
    × (((attribute f c).0 ≡ common_inbound_client_office) ↔ (
        PathOnly f
        × (f.reality_impact ≡ true)
        × (f.hy2_impact ≡ true)
        × (c.generic_healthy ≡ true)
        × (c.api_is_healthy ≡ true)
        × (c.negatives_provable ≡ true)))
    × (((attribute f c).0 ≡ reality_tcp_path) ↔ (
        PathOnly f
        × ((f.reality_impact && f.hy2_impact) ≡ false)
        × (f.reality ≡ true)
        × (f.hy2 ≡ false)
        × (c.negatives_provable ≡ true)))
    × (((attribute f c).0 ≡ hysteria2_udp_path) ↔ (
        PathOnly f
        × ((f.reality_impact && f.hy2_impact) ≡ false)
        × (f.reality ≡ false)
        × (f.hy2 ≡ true)
        × (c.negatives_provable ≡ true)))
    × ((attribute f c).0 ≢ destination_specific)
    × ((attribute f c).0 ≢ category_none)

-- `_attribute` names the process exactly when it failed and no network fault is seen (no
-- burst of a transport, no generic journal error or probe failure, no destination that stands out, not both
-- transports without clients); the outbound path
-- exactly when the process did not fail and generic journal errors, or generic probe failures with a
-- witness of another plane, are seen; the common inbound exactly when, on paths only, both transports
-- lost clients while the outbound path and the API were healthy and negatives are provable; and one
-- transport exactly when, on paths only, its own journal bursts stand alone, not both lost clients, and
-- negatives are provable. No other category but insufficient evidence is ever named.
pub attribute_iff : (f : Flags) (c : Context) → Names f c
unfolding attribute
attribute_iff f c = ground arith
