-- ===== src/Store.antt =====
-- The containers of the daemon: `std::map<std::string, V>` as a list sorted by key, whose `emplace`
-- keeps an entry that is there, and `std::list<MessageEntry>` with `std::find_if` and `erase`.
pub mod Lookup
pub mod Buffer
