-- ===== src/Protocol.antt =====
-- kmipcore/src/kmip_protocol.cpp and kmipcore/include/kmipcore/kmip_protocol.hpp: the messages and
-- their conversion from and to elements. An element that is handed over is never null.
pub mod Tags
pub mod Children
pub mod Version
pub mod Header
pub mod Item
pub mod Request
pub mod RequestLaws
pub mod Response
pub mod ResponseLaws
pub mod Numbering
pub mod Runs
pub mod Types
pub mod Payloads
pub mod PayloadLaws
