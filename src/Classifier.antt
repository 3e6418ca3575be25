-- ===== src/Classifier.antt =====
-- app/classifier: the rules on the text of an email, the filter before them, and the names and the
-- categories of merchants.
pub mod Cleaning
pub mod Merchants
pub mod Rules
pub mod PreFilter
mod Tests
