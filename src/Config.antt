-- ===== src/Config.antt =====
-- The client's configuration: `ClientConfig::create`, `parse_sni_names`, `parse_addr_mappings` and
-- `build_quic_transport_config` of src/lib.rs.
pub mod Words
pub mod Mappings
pub mod Create
pub mod Transport
pub mod Valid
pub mod RoundTrip
mod Examples
