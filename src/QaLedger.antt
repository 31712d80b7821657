-- ===== src/QaLedger.antt =====
-- engine/qa_ledger.py: the bounded ledger of quality runs, one JSON object on a line.
pub mod Lines
pub mod Store
mod Tests
