-- ===== src/Request/Handle/Get.antt =====
-- `handleRequest` on a GET that comes as a whole in one read.
use high_performance_server.Prelude.{ℕ, Bool}
use high_performance_server.Request.{Request}
use high_performance_server.Request.Response.{
  AnalysisFlag, analysis_error, analysis_success, analysis_undefined,
}
use high_performance_server.Request.Handle.{Verdict, deleted, crashed}
use high_performance_server.Request.Handle.Finish.{kept}

-- Only a request whose answer was sent as a whole is kept.
abbrev pub verdict_of : AnalysisFlag → Bool → ℕ → Bool → Request → Verdict
verdict_of analysis_error keep timer modified r = deleted
verdict_of analysis_undefined keep timer modified r = crashed
verdict_of analysis_success keep timer modified r = kept keep timer modified r
