-- ===== src/Examples.antt =====
-- Concrete instances of the parameters, and runs of the program on concrete files.
mod Codecs
mod Rows
mod TenantRows
mod SpokeRows
mod Outside
mod Data
mod PushRuns
mod AccountRuns
mod TenantRuns
mod StoreRuns
mod DiagRuns
mod RouteRuns
mod QueueRuns
mod SocketRuns
mod RegisterRuns
mod ReportRuns
mod ReseedRuns
mod AdminRuns
mod OverrideRuns
mod TaskRuns
