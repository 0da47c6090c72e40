-- ===== src/Data.antt =====
-- ublox-cellular/src/services/data: the data connection on top of the device.
pub mod Reading
pub mod Reaching
pub mod Resolving
pub mod Ending
pub mod Promise
pub mod Keeping
pub mod Lent
pub mod Made
pub mod Egress
pub mod Lengths
pub mod Closing
pub mod Tests
pub mod Defining
pub mod Stack
pub mod Udp
pub mod Ssl
pub mod Dns
pub mod Securing
pub mod Datagrams
pub mod Context
pub mod Ingress
pub mod Service
pub mod Tcp
