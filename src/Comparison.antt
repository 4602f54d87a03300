-- ===== src/Comparison.antt =====
-- scripts/report.py and the part of scripts/run.sh that feeds it: the comparison of the two arms that
-- is made from the driver's reports.
pub mod Numbers
pub mod Value
pub mod Dict
pub mod Cells
pub mod Loading
pub mod Tables
pub mod Validity
pub mod Document
pub mod Pipeline
mod Tests
