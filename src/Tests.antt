-- ===== src/Tests.antt =====
-- The theorems at concrete inputs, with small stand-ins for the libraries that the client calls.
mod Toys
mod Toys64
mod ToysJson
mod Crypto
mod Keys
mod Hosts
mod Files
mod Client
mod Accounts
mod Mails
mod Fingerprints
mod Drafts
mod Sends
mod Views
mod Cli
