-- ===== src/Examples.antt =====
-- Tests and concrete instances of the theorems, on a small fleet kept in lists.
mod Fleet
mod RuleCases
mod GroupCases
mod KeyCases
mod AppCases
mod CsvCases
mod PolicyCases
mod SessionCases
mod LimiterCases
mod RoleCases
mod ScimCases
mod SiemCases
mod LoginCases
mod AuditCases
mod CommandCases
mod SanitizeCases
mod WritingCases
mod GeofenceCases
mod ReportCases
mod LdapCases
