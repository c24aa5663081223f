-- ===== src/Bgp/Sockets/Keyed.antt =====
-- When a socket may carry traffic.
use ubgp.Base.{str_eq}
use ubgp.Net.Addr.{ip_eq}
