-- ===== src/DataProtection.antt =====
-- engine/data_protection.py, the policy on personal data and addresses: checksums, the policy,
-- the scan and the redaction of a text.
pub mod Luhn
pub mod Iban
pub mod Policy
pub mod Findings
pub mod Scan
pub mod Validate
mod Tests
