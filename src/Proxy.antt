-- ===== src/Proxy.antt =====
-- core/netfilter/proxy_server: a netfilter module that caches DNS answers and replies from the
-- cache. Cache is the tree of answers, Packet the socket buffers, Hooks the two hooks.
pub mod Cache
pub mod Packet
pub mod Hooks
