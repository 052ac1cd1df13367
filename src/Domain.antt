-- ===== src/Domain.antt =====
-- apps/api/internal/domain: what the API accepts as names, DNS records, proxy settings, resolver
-- pools, forwarding rules and stream routes. A validator panics at the first rule that is broken and
-- its exported form returns that as an error; here it is the `err` of a result, with the code of the
-- rule. The message of an error is not in the model.
pub mod Names
pub mod Values
pub mod Addresses
pub mod Proxies
pub mod Records
pub mod Forwarding
pub mod Snapshots
