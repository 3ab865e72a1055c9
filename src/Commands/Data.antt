-- ===== src/Commands/Data.antt =====
-- src/commands/data.rs: the handlers of the commands on the keyspace, by the type of the value.
pub mod Replies
pub mod Keys
pub mod Strings
pub mod Lists
pub mod Sets
pub mod Hashes
pub mod SortedSets
