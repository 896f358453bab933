-- ===== src/Persistence.antt =====
-- include/persistence/journal.hpp, src/persistence/journal.cpp: the journal.
pub mod Journal
