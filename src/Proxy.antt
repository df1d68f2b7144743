-- ===== src/Proxy.antt =====
-- src/proxy: the proxies and the PROXY protocol header.
pub mod ProxyProtocol
pub mod Tcp
pub mod Udp
pub mod Dispatch
