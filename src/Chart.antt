-- ===== src/Chart.antt =====
-- The charts of time series: web/tstlan-web/lib/chart-brush.ts, web/tstlan-web/lib/chart-grid.ts and
-- web/tstlan-web/components/time-series-chart.tsx.
pub mod Brush
pub mod Grid
pub mod Rows
pub mod Indicators
pub mod View
pub mod Legend
