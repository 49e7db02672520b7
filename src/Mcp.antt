-- ===== src/Mcp.antt =====
-- McpServer of crates/csm-proxy/src/mcp.rs: the tools and resources that MCP clients call.
pub mod Requests
pub mod Inject
pub mod Batch
pub mod Until
pub mod Observe
pub mod View
pub mod Snapshot
pub mod Resources
pub mod Start
pub mod Params
pub mod Tools
pub mod Capabilities
