-- ===== src/Net.antt =====
-- What the code uses of Go's package net: addresses with ports, and textual IP addresses.
pub mod HostPort
pub mod Ip
