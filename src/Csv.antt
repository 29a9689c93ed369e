-- ===== src/Csv.antt =====
-- services/report-service/src/services/exporters/csv-exporter.ts: reports as CSV text.
pub mod Exporter
pub mod Reading
